-- ===== src/Syntax/Format/Union.antt =====
-- Rules for tagged unions and for values that are written through a builder of their own.
use mls_go.Prelude.{
  refl, ℕ, ◌≡◌, ◌≢◌, ◌++◌, Bool, true, false, Bool-cases, ==_iff, ok, ◌>>=◌, >>=-eq-ok, >>=-eq-err,
  sym, ap, subst, ◌∙◌, inl, inr, if◌then◌else◌, ◌==◌,
}
use mls_go.Syntax.Builder.{Builder}
use mls_go.Syntax.Format.{IsFormat, IsStrict, Encoder, Decoder}
use mls_go.Syntax.Builder.{new_builder, write_raw}
use mls_go.Syntax.Format.Struct.{same_encoder, done}
use mls_go.Prelude.{inl, inr}

module _ {T : Type 0} {P : T → Type 0} where
  -- A union whose tag `tag x` has just been read as `t`: the case `k`, and the other cases.
  pub branch :
      (tag : T → ℕ) (t k : ℕ) {e₁ e₂ : Encoder T} {d₁ d₂ : Decoder T}
      → (t ≡ k → IsFormat (λ x. P x × (tag x ≡ t)) e₁ d₁)
      → (t ≢ k → IsFormat (λ x. P x × (tag x ≡ t)) e₂ d₂)
      → IsFormat
          (λ x. P x × (tag x ≡ t))
          (λ b x. if tag x == k then e₁ b x else e₂ b x)
          (λ c. if t == k then d₁ c else d₂ c)
  branch tag t k F G = elim (Bool-cases (t == k)) [
    | inl y ↦ rw y (same_encoder (F ((==_iff t k).0 y)) (λ b x px. rw (px.1, y)))
    | inr n ↦ rw n (same_encoder (G (λ h. cc (n, (==_iff t k).1 h))) (λ b x px. rw (px.1, n)))
  ]

abbrev read_case : {A T : Type 0} → Decoder A → (ℕ → A → T) → ℕ → Decoder T
read_case d mk t c = d c >>= λ (a, c'). ok (mk t a, c')

-- The case `k` of a union, whose values are `mk k a`; `Fits x k` is what that case says of a value.
module _ {A T : Type 0} {Q : A → Type 0} {e : Encoder A} {d : Decoder A} (tag : T → ℕ)
    (Fits : T → ℕ → Type 0) (k : ℕ) (mk : ℕ → A → T) {enc : Encoder T} (F : IsFormat Q e d)
    (out : (x : T) → Fits x k → (a : A) × Q a × (x ≡ mk k a))
    (into : (a : A) → Q a → Fits (mk k a) k) (tagged : (a : A) → tag (mk k a) ≡ k)
    (same : (b : Builder) (a : A) → enc b (mk k a) ≡ e b a) where
  case_at : IsFormat (λ x. Fits x (tag x) × (tag x ≡ k)) enc (read_case d mk k)
  case_at = record {
    written = λ b x b' h q.
        let (a, qa, shape) = out x (subst (Fits x) h.1 h.0) in
        let sent : e b a ≡ ok b' = sym (same b a) ∙ ap (enc b) (sym shape) ∙ q in
        let (s, w, i, r) = F.written b a b' qa sent in (s, w, i, λ more. rw (r more, shape));
    canonical = λ c x more i h.
        let ((a, c₁), h₁, h₂) = >>=-eq-ok (d c) _ h in
        let (s, qa, w, g) = F.canonical c a c₁ i h₁ in
        let shape : mk k a ≡ x = cc h₂ in
        let back : c₁ ≡ more = cc h₂ in
        (
          s,
          subst (λ y. Fits y (tag y) × (tag y ≡ k)) shape
              (subst (Fits (mk k a)) (sym (tagged a)) (into a qa), tagged a),
          w ∙ ap (λ t. s ++ t) back,
          λ b. ap (enc b) (sym shape) ∙ same b a ∙ g b,
        );
    total = λ c i h. elim (>>=-eq-err (d c) _ h) [
      | inl stop ↦ F.total c i stop
      | inr (ac, h₁, h₂) ↦ cc
    ];
  }

  pub case :
      (t : ℕ)
      → t ≡ k
      → IsFormat (λ x. Fits x (tag x) × (tag x ≡ t)) enc (λ c. d c >>= λ (a, c'). ok (mk t a, c'))
  case t here =
      subst (λ u. IsFormat (λ x. Fits x (tag x) × (tag x ≡ u)) enc (read_case d mk u)) (sym here)
        case_at

-- A format for each outcome of a test that both sides make.
pub IsFormat-if :
    {T : Type 0} {P P' : T → Type 0} {e e' : Encoder T} {d d' : Decoder T} (b : Bool)
    → IsFormat P e d
    → IsFormat P' e' d'
    → IsFormat
        (λ x. if b then P x else P' x)
        (λ w x. if b then e w x else e' w x)
        (λ c. if b then d c else d' c)
IsFormat-if true F G = F
IsFormat-if false F G = G

-- A case with no body.
pub empty-IsFormat : IsFormat (λ (u : Unit {0}). Unit {0}) (λ b u. ok b) (λ c. ok (tt, c))
empty-IsFormat = done tt tt (λ u h. refl)

-- A value that is first marshalled by itself, and whose bytes are then written raw.
pub inline :
    {T : Type 0} {P : T → Type 0} {e : Encoder T} {d : Decoder T}
    → IsFormat P e d
    → IsFormat P (λ b x. e new_builder x >>= λ raw. ok (write_raw b raw)) d
unfolding write_raw
inline {e = e} F = record {
  written = λ b x b' h q.
      let (raw, q₁, q₂) = >>=-eq-ok (e new_builder x) _ q in
      let (s, w, k, r) = F.written new_builder x raw h q₁ in (s, cc (w, q₂), k, r);
  canonical = λ c x more k h.
      let (s, px, w, g) = F.canonical c x more k h in (s, px, w, λ b. rw (g new_builder));
  total = F.total;
}

pub inline-IsStrict :
    {T : Type 0} {P : T → Type 0} {e : Encoder T} {d : Decoder T}
    → IsStrict P e d
    → IsStrict P (λ b x. e new_builder x >>= λ raw. ok (write_raw b raw)) d
inline-IsStrict F = record { format = inline F.format; progress = F.progress }
