-- ===== src/Framing/Skim/Rules.antt =====
-- Functions that advance a cursor, and what the bytes that they consume say of them.
use mls_go.Prelude.{
  ℕ, ◌-◌, ◌≡◌, ◌≢◌, refl, sym, ap, subst, ◌∙◌, inl, inr, Bool, true, false, [], ◌++◌, length, take,
  length-append, All, All-append_left, All-append_right, append_assoc, if◌then◌else◌, Error, Result,
  ok, err, ◌>>=◌, >>=-eq-ok, >>=-eq-err, out_of_fuel, arith, take-append_length,
}
use mls_go.Syntax.Varint.{IsByte, Bytes}
use mls_go.Syntax.Builder.{write_raw}
use mls_go.Syntax.Cursor.{Cursor}
use mls_go.Syntax.Format.{IsFormat, Encoder, Decoder}
use mls_go.Framing.Skim.{skim}

-- What is consumed alone determines that it is consumed, whatever follows.
pub record IsSkim (f : Cursor → Result Cursor) : Type 0 where
  pub span :
      (c more : Cursor)
      → All IsByte c
      → f c ≡ ok more
      → (s : Bytes) × (c ≡ s ++ more) × ((after : Cursor) → f (s ++ after) ≡ ok after)
  pub total : (c : Cursor) → All IsByte c → f c ≢ err out_of_fuel

pub IsSkim-done : IsSkim (λ c. ok c)
IsSkim-done = record { span = λ c more k e. ([], cc e, λ after. refl); total = λ c k e. cc }

pub IsSkim-refused : (why : Error) → why ≢ out_of_fuel → IsSkim (λ c. err why)
IsSkim-refused why ends = record { span = λ c more k e. cc; total = λ c k e. ends (cc) }

module _ {A : Type 0} {Q : A → Type 0} {e : Encoder A} {d : Decoder A} (F : IsFormat Q e d) where
  -- The bytes of a value of a format.
  read_span :
      (c more : Cursor) (a : A)
      → All IsByte c
      → d c ≡ ok (a, more)
      → (s : Bytes) × Q a × (c ≡ s ++ more) × ((after : Cursor) → d (s ++ after) ≡ ok (a, after))
  read_span c more a k h =
      let (s, qa, w, g) = F.canonical c a more k h in
      let (s', w', k', r) = F.written [] a s qa (g []) in
      (s, qa, w, λ after. subst (λ t. d (t ++ after) ≡ ok (a, after)) (sym w') (r after))

  -- A value is read and dropped, and then the rest is skimmed.
  pub IsSkim-field :
      {k : A → Cursor → Result Cursor}
      → ((a : A) → IsSkim (k a))
      → IsSkim (λ c. d c >>= λ (a, c'). k a c')
  IsSkim-field {k} G = record {
    span = λ c more bytes h.
        let ((a, c₁), h₁, h₂) = >>=-eq-ok (d c) _ h in
        let (s₁, qa, w₁, r₁) = read_span c c₁ a bytes h₁ in
        let (s₂, w₂, r₂) =
          (G a).span c₁ more (All-append_right IsByte s₁ c₁ (subst (All IsByte) w₁ bytes)) h₂ in
        (
          s₁ ++ s₂,
          w₁ ∙ ap (λ t. s₁ ++ t) w₂ ∙ sym (append_assoc s₁ s₂ more),
          λ after. rw (append_assoc s₁ s₂ after, r₁ (s₂ ++ after)) (r₂ after),
        );
    total = λ c bytes h. elim (>>=-eq-err (d c) _ h) [
      | inl stop ↦ F.total c bytes stop
      | inr ((a, c₁), h₁, h₂) ↦
          let (s₁, qa, w₁, r₁) = read_span c c₁ a bytes h₁ in
          (G a).total c₁ (All-append_right IsByte s₁ c₁ (subst (All IsByte) w₁ bytes)) h₂
    ];
  }

-- One skim after another.
pub IsSkim-then :
    {f g : Cursor → Result Cursor} → IsSkim f → IsSkim g → IsSkim (λ c. f c >>= λ c'. g c')
IsSkim-then {f} {g} F G = record {
  span = λ c more bytes h.
      let (c₁, h₁, h₂) = >>=-eq-ok (f c) _ h in
      let (s₁, w₁, r₁) = F.span c c₁ bytes h₁ in
      let (s₂, w₂, r₂) =
        G.span c₁ more (All-append_right IsByte s₁ c₁ (subst (All IsByte) w₁ bytes)) h₂ in
      (
        s₁ ++ s₂,
        w₁ ∙ ap (λ t. s₁ ++ t) w₂ ∙ sym (append_assoc s₁ s₂ more),
        λ after. rw (append_assoc s₁ s₂ after, r₁ (s₂ ++ after)) (r₂ after),
      );
  total = λ c bytes h. elim (>>=-eq-err (f c) _ h) [
    | inl stop ↦ F.total c bytes stop
    | inr (c₁, h₁, h₂) ↦
        let (s₁, w₁, r₁) = F.span c c₁ bytes h₁ in
        G.total c₁ (All-append_right IsByte s₁ c₁ (subst (All IsByte) w₁ bytes)) h₂
  ];
}

pub IsSkim-if :
    (b : Bool) {f g : Cursor → Result Cursor}
    → IsSkim f
    → IsSkim g
    → IsSkim (λ c. if b then f c else g c)
IsSkim-if true F G = F
IsSkim-if false F G = G

-- The bytes that `f` consumes whole, whatever follows them.
abbrev pub IsSpan : (Cursor → Result Cursor) → Bytes → Type 0
IsSpan f s = All IsByte s × ((after : Cursor) → f (s ++ after) ≡ ok after)

-- What is skimmed is captured verbatim: writing it raw undoes that.
pub skim-IsFormat :
    {f : Cursor → Result Cursor}
    → IsSkim f
    → IsFormat (IsSpan f) (λ b s. ok (write_raw b s)) (skim f)
unfolding skim write_raw
skim-IsFormat {f} F = record {
  written = λ b s b' h e.
      (s, cc e, h.0, λ more. rw (h.1 more) (ap (λ t. ok (t, more)) (consumed s more)));
  canonical = λ c x more k e.
      let (c₁, h₁, h₂) = >>=-eq-ok (f c) _ e in
      let (s, w, r) = F.span c c₁ k h₁ in
      let back : c₁ ≡ more = cc h₂ in
      let captured : take (length c - length c₁) c ≡ x = cc h₂ in
      let is : x ≡ s = sym captured ∙ ap (λ t. take (length t - length c₁) t) w ∙ consumed s c₁ in
      (
        s,
        subst (IsSpan f) (sym is) (All-append_left IsByte s c₁ (subst (All IsByte) w k), r),
        w ∙ ap (λ t. s ++ t) back,
        λ b. ap (λ t. ok (b ++ t)) is,
      );
  total =
      λ c k e. elim (>>=-eq-err (f c) _ e) [ inl stop ↦ F.total c k stop | inr (c₁, h₁, h₂) ↦ cc ];
}
  where
    consumed : (s more : Bytes) → take (length (s ++ more) - length more) (s ++ more) ≡ s
    consumed s more =
        let size : length (s ++ more) - length more ≡ length s =
          omega (arith, length-append s more) in
        ap (λ (n : ℕ). take n (s ++ more)) size ∙ take-append_length s more
