-- ===== src/Syntax/Format/Struct.antt =====
-- Rules that build the format of a struct, field by field, and of a tagged union.
use mls_go.Prelude.{
  ◌≡◌, ◌≢◌, ◌++◌, [], All, All-append, All-append_right, Error, ok, err, ◌>>=◌, >>=-eq-ok,
  >>=-eq-err, out_of_fuel, refl, sym, ap, subst, ◌∙◌, inl, inr, append_assoc, append-nil, arith,
  length, length-append,
}
use mls_go.Syntax.Varint.{IsByte}
use mls_go.Syntax.Builder.{Builder}
use mls_go.Syntax.Format.{IsFormat, IsStrict, Encoder, Decoder}

-- A field, and then the rest of the struct with that field fixed.
module _ {A T : Type 0} {Q : A → Type 0} {P : T → Type 0} {e₁ : Encoder A} {d₁ : Decoder A} where
  pub field :
      (get : T → A) {e₂ : Encoder T} {d₂ : A → Decoder T}
      → IsFormat Q e₁ d₁
      → ((x : T) → P x → Q (get x))
      → ((a : A) → Q a → IsFormat (λ x. P x × (get x ≡ a)) e₂ (d₂ a))
      → IsFormat P (λ b x. e₁ b (get x) >>= λ b'. e₂ b' x) (λ c. d₁ c >>= λ (a, c'). d₂ a c')
  field get {e₂} {d₂} F pq G = record {
    written = λ b x b' px e.
        let (b₁, h₁, h₂) = >>=-eq-ok (e₁ b (get x)) _ e in
        let (s₁, q₁, k₁, r₁) = F.written b (get x) b₁ (pq x px) h₁ in
        let (s₂, q₂, k₂, r₂) = (G (get x) (pq x px)).written b₁ x b' (px, refl) h₂ in
        (
          s₁ ++ s₂,
          q₂ ∙ ap (λ t. t ++ s₂) q₁ ∙ append_assoc b s₁ s₂,
          All-append IsByte s₁ s₂ k₁ k₂,
          λ more. rw (append_assoc s₁ s₂ more, r₁ (s₂ ++ more)) (r₂ more),
        );
    canonical = λ c x more k e.
        let ((a, c₁), h₁, h₂) = >>=-eq-ok (d₁ c) _ e in
        let (s₁, qa, w₁, g₁) = F.canonical c a c₁ k h₁ in
        let k₁ = All-append_right IsByte s₁ c₁ (subst (All IsByte) w₁ k) in
        let (s₂, (px, ga), w₂, g₂) = (G a qa).canonical c₁ x more k₁ h₂ in
        (
          s₁ ++ s₂,
          px,
          w₁ ∙ ap (λ t. s₁ ++ t) w₂ ∙ sym (append_assoc s₁ s₂ more),
          λ b. rw (ga, g₁ b, g₂ (b ++ s₁), append_assoc b s₁ s₂),
        );
    total = λ c k e. elim (>>=-eq-err (d₁ c) _ e) [
      | inl stop ↦ F.total c k stop
      | inr ((a, c₁), h₁, h₂) ↦
          let (s₁, qa, w₁, g₁) = F.canonical c a c₁ k h₁ in
          (G a qa).total c₁ (All-append_right IsByte s₁ c₁ (subst (All IsByte) w₁ k)) h₂
    ];
  }

  -- As `field`, for a first field that takes a byte at least.
  pub first_field :
      (get : T → A) {e₂ : Encoder T} {d₂ : A → Decoder T}
      → IsStrict Q e₁ d₁
      → ((x : T) → P x → Q (get x))
      → ((a : A) → Q a → IsFormat (λ x. P x × (get x ≡ a)) e₂ (d₂ a))
      → IsStrict P (λ b x. e₁ b (get x) >>= λ b'. e₂ b' x) (λ c. d₁ c >>= λ (a, c'). d₂ a c')
  first_field get F pq G = record {
    format = field get F.format pq G;
    progress = λ c x more k e.
        let ((a, c₁), h₁, h₂) = >>=-eq-ok (d₁ c) _ e in
        let (s₁, qa, w₁, g₁) = F.format.canonical c a c₁ k h₁ in
        let k₁ = All-append_right IsByte s₁ c₁ (subst (All IsByte) w₁ k) in
        let (s₂, px, w₂, g₂) = (G a qa).canonical c₁ x more k₁ h₂ in
        omega (arith, F.progress c a c₁ k h₁, ap length w₂, length-append s₂ more);
  }

module _ {T : Type 0} {P : T → Type 0} where
  -- No field is left: the value is known.
  pub done : (t : T) → P t → ((x : T) → P x → x ≡ t) → IsFormat P (λ b x. ok b) (λ c. ok (t, c))
  done t pt same = record {
    written = λ b x b' px e. ([], cc (append-nil b), tt, λ more. rw (same x px));
    canonical = λ c x more k e. ([], subst P (cc) pt, cc, λ b. cc (append-nil b));
    total = λ c k e. cc;
  }

  -- Neither side accepts anything.
  pub refused : (m m' : Error) → m' ≢ out_of_fuel → IsFormat P (λ b x. err m) (λ c. err m')
  refused m m' ends = record {
    written = λ b x b' px e. cc;
    canonical = λ c x more k e. cc;
    total = λ c k e. ends (cc);
  }

  -- The format under an equivalent predicate.
  pub restrict :
      {P' : T → Type 0} {e : Encoder T} {d : Decoder T}
      → IsFormat P e d
      → ((x : T) → P' x → P x)
      → ((x : T) → P x → P' x)
      → IsFormat P' e d
  restrict F into from = record {
    written = λ b x b' px h. F.written b x b' (into x px) h;
    canonical =
        λ c x more k h. let (s, px, w, g) = F.canonical c x more k h in (s, from x px, w, g);
    total = F.total;
  }

  -- Encoders that agree on the values of the format.
  pub same_encoder :
      {e e' : Encoder T} {d : Decoder T}
      → IsFormat P e d
      → ((b : Builder) (x : T) → P x → e' b x ≡ e b x)
      → IsFormat P e' d
  same_encoder F same = record {
    written = λ b x b' px h. F.written b x b' px (sym (same b x px) ∙ h);
    canonical = λ c x more k h.
        let (s, px, w, g) = F.canonical c x more k h in (s, px, w, λ b. same b x px ∙ g b);
    total = F.total;
  }

pub same-IsStrict :
    {T : Type 0} {P : T → Type 0} {e e' : Encoder T} {d : Decoder T}
    → IsStrict P e d
    → ((b : Builder) (x : T) → P x → e' b x ≡ e b x)
    → IsStrict P e' d
same-IsStrict F same = record { format = same_encoder F.format same; progress = F.progress }

pub restrict-IsStrict :
    {T : Type 0} {P P' : T → Type 0} {e : Encoder T} {d : Decoder T}
    → IsStrict P e d
    → ((x : T) → P' x → P x)
    → ((x : T) → P x → P' x)
    → IsStrict P' e d
restrict-IsStrict F into from = record {
  format = restrict F.format into from;
  progress = F.progress;
}
