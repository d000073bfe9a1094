-- ===== src/Tree/RatchetTree/Blanks.antt =====
-- The blank nodes at the end of a node array.
use mls_go.Prelude.{
  ℕ, zero, suc, ◌-◌, ◌≤◌, ◌<◌, ◌≡◌, refl, ap, Option, none, some, List, [], ◌∷◌, ◌++◌, length,
  length-append, take, replicate, arith, inl, inr, lt_or_ge, take-append_length, ◌∙◌,
}
use mls_go.Tree.Node.{Node}
use mls_go.Tree.RatchetTree.{slot, end_loop}

slot-replicate : (k i : ℕ) → slot (replicate k none) i ≡ none
unfolding slot
slot-replicate zero i = refl
slot-replicate (suc k) zero = refl
slot-replicate (suc k) (suc i) = slot-replicate k i

slot-append_right :
    (xs : List (Option Node)) (k i : ℕ) → length xs ≤ i → slot (xs ++ replicate k none) i ≡ none
unfolding slot
slot-append_right [] k i h = slot-replicate k i
slot-append_right (x ∷ xs) k zero h = absurd (omega arith)
slot-append_right (x ∷ xs) k (suc i) h = slot-append_right xs k i (omega arith)

slot-append_left :
    (xs ys : List (Option Node)) (i : ℕ) → i < length xs → slot (xs ++ ys) i ≡ slot xs i
unfolding slot
slot-append_left [] ys i h = absurd (omega arith)
slot-append_left (x ∷ xs) ys zero h = refl
slot-append_left (x ∷ xs) ys (suc i) h = slot-append_left xs ys i (omega arith)

-- The loop stops at the last node that is not blank.
end_loop-last :
    (j e : ℕ) (nodes : List (Option Node)) (n : Node)
    → suc e ≤ j
    → ((i : ℕ) → suc e ≤ i → slot nodes i ≡ none)
    → slot nodes e ≡ some n
    → end_loop nodes j ≡ suc e
unfolding end_loop
end_loop-last zero e nodes n h blank last = absurd (omega arith)
end_loop-last (suc j) e nodes n h blank last = elim (lt_or_ge e j) [
  | inl more ↦ ground (arith, blank j more, end_loop-last j e nodes n more blank last)
  | inr done ↦ let here : j ≡ e = omega arith in ground (arith, ap (slot nodes) here, last)
]

-- Filling up with blanks is undone by leaving them out.
pub take-end_loop :
    (xs : List (Option Node)) (k : ℕ) (n : Node)
    → 0 < length xs
    → slot xs (length xs - 1) ≡ some n
    → take
        (end_loop (xs ++ replicate k none) (length (xs ++ replicate k none)))
        (xs ++ replicate k none)
      ≡ xs
take-end_loop xs k n h last =
    let all = xs ++ replicate k none in
    let e = length xs - 1 in
    let len : suc e ≡ length xs = omega arith in
    let stop : end_loop all (length all) ≡ suc e =
      end_loop-last (length all) e all n (omega (arith, length-append xs (replicate k none)))
        (λ i above. slot-append_right xs k i (omega arith))
        (slot-append_left xs (replicate k none) e (omega arith) ∙ last) in
    ap (λ (m : ℕ). take m all) (stop ∙ len) ∙ take-append_length xs (replicate k none)
