-- ===== src/Syntax/Format/Optional.antt =====
-- The format of an optional value.
use mls_go.Prelude.{
  ℕ, ◌^◌, ◌<◌, ◌≡◌, inl, inr, refl, sym, ap, ◌∙◌, ◌++◌, All, subst, arith, Option, none, some, ok,
  err, ◌>>=◌, >>=-eq-ok, >>=-eq-err, invalid_optional, if◌then◌else◌, ◌==◌,
}
use mls_go.Syntax.Varint.{IsByte}
use mls_go.Syntax.Builder.{Builder, write_uint8}
use mls_go.Syntax.Cursor.{Cursor}
use mls_go.Syntax.Vector.{write_optional, read_optional}
use mls_go.Syntax.Format.{IsStrict, IsFormat, Encoder, Decoder}
use mls_go.Syntax.Format.Scalars.{uint8-IsStrict}
use mls_go.Syntax.Format.Struct.{done, refused, same-IsStrict, first_field}
use mls_go.Syntax.Format.Union.{branch}

-- The predicate of the elements, where there is one.
abbrev pub AllSome : {T : Type 0} → (T → Type 0) → Option T → Type 0
AllSome P none = Unit {0}
AllSome P (some x) = P x

abbrev presence : {T : Type 0} → Option T → ℕ
presence none = 0
presence (some x) = 1

module _ {T : Type 0} {P : T → Type 0} {e : Encoder T} {d : Decoder T} (F : IsFormat P e d) where
  -- The rest of an optional value, by clauses instead of by its presence byte.
  abbrev value : Encoder (Option T)
  value b none = ok b
  value b (some x) = e b x

  abbrev read_some : Decoder (Option T)
  read_some c = d c >>= λ (v, c'). ok (some v, c')

  some-IsFormat : IsFormat (λ o. AllSome P o × (presence o ≡ 1)) value read_some
  some-IsFormat = record {
    written = λ b o b' h q. some_written b o b' h q;
    canonical = λ c o more k h.
        let ((x, c₁), h₁, h₂) = >>=-eq-ok (d c) _ h in
        let (s, px, w, g) = F.canonical c x c₁ k h₁ in
        let same : some x ≡ o = cc h₂ in
        let back : c₁ ≡ more = cc h₂ in
        (
          s,
          subst (λ t. AllSome P t × (presence t ≡ 1)) same (px, refl),
          w ∙ ap (λ t. s ++ t) back,
          λ b. subst (λ t. value b t ≡ ok (b ++ s)) same (g b),
        );
    total = λ c k h. elim (>>=-eq-err (d c) _ h) [
      | inl stop ↦ F.total c k stop
      | inr (xc, h₁, h₂) ↦ cc
    ];
  }
    where
      some_written :
          (b : Builder) (o : Option T) (b' : Builder)
          → AllSome P o × (presence o ≡ 1)
          → value b o ≡ ok b'
          → (s : Builder) × (b' ≡ b ++ s)
            × All IsByte s
            × ((more : Cursor) → read_some (s ++ more) ≡ ok (o, more))
      some_written b none b' h q = absurd (omega arith)
      some_written b (some x) b' h q =
          let (s, w, k, r) = F.written b x b' h.0 q in (s, w, k, λ more. rw (r more))

  pub optional-IsStrict :
      IsStrict (AllSome P) (λ b o. write_optional b o e) (λ c. read_optional c d)
  unfolding read_optional write_optional
  optional-IsStrict =
      same-IsStrict
        (first_field presence {e₂ = λ b o. if presence o == 0 then ok b else other b o}
          uint8-IsStrict presence_small
          (λ a h.
            branch presence a 0 (λ zero. none_case a zero)
              (λ more_than.
                branch presence a 1
                  (λ one.
                    subst (λ t. IsFormat (λ o. AllSome P o × (presence o ≡ t)) value read_some)
                      (sym one) some-IsFormat)
                  (λ neither. refused invalid_optional invalid_optional (λ q. cc)))))
        agree
    where
      other : Encoder (Option T)
      other b o = if presence o == 1 then value b o else err invalid_optional

      presence_small : (o : Option T) → AllSome P o → presence o < 2 ^ 8
      presence_small none h = omega arith
      presence_small (some x) h = omega arith

      none_only : (a : ℕ) → a ≡ 0 → (o : Option T) → AllSome P o × (presence o ≡ a) → o ≡ none
      none_only a z none h = refl
      none_only a z (some x) h = absurd (omega arith)

      none_case :
          (a : ℕ)
          → a ≡ 0
          → IsFormat (λ o. AllSome P o × (presence o ≡ a)) (λ b o. ok b) (λ c. ok (none, c))
      none_case a z = done none (tt, sym z) (none_only a z)

      agree :
          (b : Builder) (o : Option T)
          → AllSome P o
          → write_optional b o e ≡ (
              ok (write_uint8 b (presence o)) >>= λ b'.
              if presence o == 0 then ok b' else other b' o)
      agree b none h = refl
      agree b (some x) h = refl

  pub optional-IsFormat :
      IsFormat (AllSome P) (λ b o. write_optional b o e) (λ c. read_optional c d)
  optional-IsFormat = optional-IsStrict.format
