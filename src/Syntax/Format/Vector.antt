-- ===== src/Syntax/Format/Vector.antt =====
-- The format of a vector from the format of its elements.
use mls_go.Prelude.{
  ℕ, zero, suc, ◌≤◌, ◌<◌, ◌≡◌, ◌≢◌, sym, ap, ◌∙◌, subst, List, [], ◌∷◌, ◌++◌, append_assoc,
  append-nil, All, All-append, All-append_right, length, arith, inl, inr, Result, ok, err,
  >>=-eq-ok, >>=-eq-err, out_of_fuel,
}
use mls_go.Syntax.Varint.{IsByte, Bytes}
use mls_go.Syntax.Builder.{Builder, new_builder}
use mls_go.Syntax.Cursor.{read_opaque_v}
use mls_go.Syntax.Vector.{write_items, write_vector_v, read_items, read_vector_v}
use mls_go.Syntax.Format.{IsFormat, IsStrict, Encoder, Decoder, Progress}
use mls_go.Syntax.Format.Opaque.{opaque-IsFormat, opaque-Progress, read_opaque_v-ne-out_of_fuel}

module _ {T : Type 0} {P : T → Type 0} {e : Encoder T} {d : Decoder T} (F : IsFormat P e d)
    (G : Progress d) where
  -- One round of the reading loop.
  read_round :
      (fuel : ℕ) (c more : Bytes) (out : List T) (x : T) {r : Result (List T)}
      → d c ≡ ok (x, more)
      → All IsByte c
      → length c ≤ fuel
      → ((f : ℕ) → length more ≤ f → read_items d f more (out ++ x ∷ []) ≡ r)
      → read_items d fuel c out ≡ r
  unfolding read_items
  read_round fuel [] more out x h k le next = absurd (omega (arith, G [] x more k h))
  read_round zero (b ∷ c) more out x h k le next = absurd (omega arith)
  read_round (suc fuel) (b ∷ c) more out x h k le next =
      rw h (next fuel (omega (arith, G (b ∷ c) x more k h)))

  -- The rounds of the writing loop append, and the reading loop undoes them.
  items_written :
      (xs : List T) (b b' : Builder)
      → All P xs
      → write_items e b xs ≡ ok b'
      → (s : Bytes) × (b' ≡ b ++ s)
        × All IsByte s
        × ((fuel : ℕ) (out : List T) → length s ≤ fuel → read_items d fuel s out ≡ ok (out ++ xs))
  unfolding write_items
  items_written [] b b' h q =
      ([], cc (append-nil b), tt, λ fuel out le. unfold read_items in cc (append-nil out))
  items_written (x ∷ xs) b b' h q =
      let (b₁, q₁, q₂) = >>=-eq-ok (e b x) _ q in
      let (s₁, w₁, k₁, r₁) = F.written b x b₁ h.0 q₁ in
      let (s₂, w₂, k₂, r₂) = items_written xs b₁ b' h.1 q₂ in
      (
        s₁ ++ s₂,
        w₂ ∙ ap (λ t. t ++ s₂) w₁ ∙ append_assoc b s₁ s₂,
        All-append IsByte s₁ s₂ k₁ k₂,
        λ fuel out le.
            read_round fuel (s₁ ++ s₂) s₂ out x (r₁ s₂) (All-append IsByte s₁ s₂ k₁ k₂) le
              (λ f l. r₂ f (out ++ x ∷ []) l ∙ ap ok (append_assoc out (x ∷ []) xs)),
      )

  -- What the reading loop accepts is what the writing loop writes.
  items_canonical :
      (fuel : ℕ) (c : Bytes) (out xs : List T)
      → All IsByte c
      → read_items d fuel c out ≡ ok xs
      → (ys : List T) × (xs ≡ out ++ ys)
        × All P ys
        × ((b : Builder) → write_items e b ys ≡ ok (b ++ c))
  unfolding read_items write_items
  items_canonical fuel [] out xs k h = ([], cc (append-nil out), tt, λ b. cc (append-nil b))
  items_canonical zero (b ∷ c) out xs k h = cc
  items_canonical (suc fuel) (a ∷ c) out xs k h =
      let ((x, more), h₁, h₂) = >>=-eq-ok (d (a ∷ c)) _ h in
      let (s, px, w, g) = F.canonical (a ∷ c) x more k h₁ in
      let k₁ = All-append_right IsByte s more (subst (All IsByte) w k) in
      let (ys, q, py, g₂) = items_canonical fuel more (out ++ x ∷ []) xs k₁ h₂ in
      (
        x ∷ ys,
        q ∙ append_assoc out (x ∷ []) ys,
        (px, py),
        λ b. rw (g b, g₂ (b ++ s), w, append_assoc b s more),
      )

  items_total :
      (fuel : ℕ) (c : Bytes) (out : List T)
      → All IsByte c
      → length c ≤ fuel
      → read_items d fuel c out ≢ err out_of_fuel
  unfolding read_items
  items_total fuel [] out k le h = cc
  items_total zero (b ∷ c) out k le h = absurd (omega arith)
  items_total (suc fuel) (a ∷ c) out k le h = elim (>>=-eq-err (d (a ∷ c)) _ h) [
    | inl stop ↦ F.total (a ∷ c) k stop
    | inr ((x, more), h₁, h₂) ↦
        let (s, px, w, g) = F.canonical (a ∷ c) x more k h₁ in
        items_total fuel more (out ++ x ∷ [])
          (All-append_right IsByte s more (subst (All IsByte) w k))
          (omega (arith, G (a ∷ c) x more k h₁)) h₂
  ]

  -- WriteVectorV and ReadVectorV undo one another for every element whose encoder and decoder do
  -- and whose decoder takes a byte at least, and the reading loop ends.
  pub vector-IsFormat : IsFormat (All P) (λ b xs. write_vector_v b xs e) (λ c. read_vector_v c d)
  unfolding write_vector_v read_vector_v
  vector-IsFormat = record {
    written = λ b xs b' h q.
        let (body, q₁, q₂) = >>=-eq-ok (write_items e new_builder xs) _ q in
        let (s, w, k, r) = items_written xs new_builder body h q₁ in
        let (s', w', k', r') =
          opaque-IsFormat.written b body b' (subst (All IsByte) (sym w) k) q₂ in
        (s', w', k', λ more. rw (r' more, w, r (length s) [] (omega arith)));
    canonical = λ c xs more k h.
        let ((body, c₁), h₁, h₂) = >>=-eq-ok (read_opaque_v c) _ h in
        let (out, h₃, h₄) = >>=-eq-ok (read_items d (length body) body []) _ h₂ in
        let (s, kb, w, g) = opaque-IsFormat.canonical c body c₁ k h₁ in
        let (ys, q, py, g₂) = items_canonical (length body) body [] out kb h₃ in
        let same : ys ≡ xs = cc (q, h₄) in
        let back : c₁ ≡ more = cc h₄ in
        (
          s,
          subst (All P) same py,
          w ∙ ap (λ t. s ++ t) back,
          λ b. rw (← same, g₂ new_builder, g b),
        );
    total = λ c k h. elim (>>=-eq-err (read_opaque_v c) _ h) [
      | inl stop ↦ read_opaque_v-ne-out_of_fuel c stop
      | inr ((body, c₁), h₁, h₂) ↦
          let (s, kb, w, g) = opaque-IsFormat.canonical c body c₁ k h₁ in
          elim (>>=-eq-err (read_items d (length body) body []) _ h₂) [
            | inl stop ↦ items_total (length body) body [] kb (omega arith) stop
            | inr (out, h₃, h₄) ↦ cc
          ]
    ];
  }

pub vector-Progress : {T : Type 0} (d : Decoder T) → Progress (λ c. read_vector_v c d)
unfolding read_vector_v
vector-Progress d c xs more k h =
    let ((body, c₁), h₁, h₂) = >>=-eq-ok (read_opaque_v c) _ h in
    let (out, h₃, h₄) = >>=-eq-ok (read_items d (length body) body []) _ h₂ in
    let back : c₁ ≡ more = cc h₄ in
    subst (λ t. length t < length c) back (opaque-Progress c body c₁ k h₁)

pub vector-IsStrict :
    {T : Type 0} {P : T → Type 0} {e : Encoder T} {d : Decoder T}
    → IsStrict P e d
    → IsStrict (All P) (λ b xs. write_vector_v b xs e) (λ c. read_vector_v c d)
vector-IsStrict {d = d} F = record {
  format = vector-IsFormat F.format F.progress;
  progress = vector-Progress d;
}
