-- ===== src/Tree/RatchetTree/Mutate/FindBlank.antt =====
-- The scan of AddLeaf for a blank leaf.
use mls_go.Prelude.{
  ℕ, zero, suc, ◌+◌, ◌*◌, ◌≤◌, ◌<◌, ◌≡◌, ◌≢◌, refl, sym, ap, ◌∙◌, ◌⊎◌, inl, inr, Option, none, some,
  List, [], ◌∷◌, length, arith,
}
use mls_go.Tree.Node.{Node}
use mls_go.Tree.RatchetTree.{slot}
use mls_go.Tree.RatchetTree.Mutate.{find_blank}

two_on :
    (n m : Option Node) (nodes : List (Option Node)) (j : ℕ)
    → slot (n ∷ m ∷ nodes) (2 * suc j) ≡ slot nodes (2 * j)
unfolding slot
two_on n m nodes j =
    let next : 2 * suc j ≡ suc (suc (2 * j)) = omega arith in ap (slot (n ∷ m ∷ nodes)) next

some-none : {n : Node} → some n ≢ none
some-none h = cc h

-- The first blank leaf: it is in range, and the leaves before it are not blank.
abbrev pub IsLeast : List (Option Node) → ℕ → Type 0
IsLeast nodes m =
    (2 * m < length nodes)
    × (slot nodes (2 * m) ≡ none)
    × ((j : ℕ) → (m ≤ j) ⊎ (slot nodes (2 * j) ≢ none))

step_back :
    (n : Node) (m : Option Node) (nodes : List (Option Node)) (k : ℕ)
    → ((j : ℕ) → (k ≤ j) ⊎ (slot nodes (2 * j) ≢ none))
    → (j : ℕ) → (suc k ≤ j) ⊎ (slot (some n ∷ m ∷ nodes) (2 * j) ≢ none)
unfolding slot
step_back n m nodes k before zero = inr some-none
step_back n m nodes k before (suc j) = elim (before j) [
  | inl h ↦ inl (omega arith)
  | inr h ↦ inr (λ e. h (sym (two_on (some n) m nodes j) ∙ e))
]

pub find_blank-IsLeast :
    (nodes : List (Option Node)) (s i : ℕ)
    → find_blank nodes s ≡ some i
    → (m : ℕ) × (i ≡ s + 2 * m) × IsLeast nodes m
unfolding find_blank slot
find_blank-IsLeast [] s i h = cc
find_blank-IsLeast (none ∷ nodes) s i h =
    (0, ground arith, (omega arith, refl, λ j. inl (omega arith)))
find_blank-IsLeast (some n ∷ []) s i h = cc
find_blank-IsLeast (some n ∷ m ∷ nodes) s i h =
    let (k, e, (inside, free, before)) = find_blank-IsLeast nodes (s + 2) i h in
    (
      suc k,
      omega arith,
      (omega arith, two_on (some n) m nodes k ∙ free, step_back n m nodes k before),
    )

-- When there is none, no leaf is blank.
pub find_blank-full :
    (nodes : List (Option Node)) (s j : ℕ)
    → find_blank nodes s ≡ none
    → 2 * j < length nodes
    → slot nodes (2 * j) ≢ none
unfolding find_blank slot
find_blank-full [] s j h inside = absurd (omega arith)
find_blank-full (none ∷ nodes) s j h inside = cc
find_blank-full (some n ∷ []) s zero h inside = some-none
find_blank-full (some n ∷ []) s (suc j) h inside = absurd (omega arith)
find_blank-full (some n ∷ m ∷ nodes) s zero h inside = some-none
find_blank-full (some n ∷ m ∷ nodes) s (suc j) h inside =
    λ e. find_blank-full nodes (s + 2) j h (omega arith) (sym (two_on (some n) m nodes j) ∙ e)
