-- ===== src/Tree/RatchetTree/Mutate/Unmerged.antt =====
-- The insertion of a leaf among the unmerged leaves: it adds that leaf only and keeps them sorted.
use mls_go.Prelude.{
  ℕ, ◌≤◌, ◌<◌, ◌≡◌, ◌⊎◌, refl, inl, inr, Option, none, some, Option-cases, List, [], ◌∷◌, arith,
  All, lt_or_ge,
}
use mls_go.Tree.ParentNode.{ParentNode}
use mls_go.Tree.Node.{Node}
use mls_go.Tree.RatchetTree.Mutate.{insert_unmerged, mark_unmerged}
use mathlib.Core.List.{Perm}
use mathlib.Core.List.Perm

abbrev pub IsSorted : List ℕ → Type 0
IsSorted [] = Unit {0}
IsSorted (x ∷ xs) = All (λ y. x ≤ y) xs × IsSorted xs

insert_later :
    (leaf y : ℕ) (ys : List ℕ)
    → y < leaf
    → insert_unmerged leaf (y ∷ ys) ≡ y ∷ insert_unmerged leaf ys
unfolding insert_unmerged
insert_later leaf y ys h = ground arith

insert_here : (leaf y : ℕ) (ys : List ℕ) → leaf ≤ y → insert_unmerged leaf (y ∷ ys) ≡ leaf ∷ y ∷ ys
unfolding insert_unmerged
insert_here leaf y ys h = ground arith

insert_above :
    (x leaf : ℕ) (xs : List ℕ)
    → x ≤ leaf
    → All (λ y. x ≤ y) xs
    → All (λ y. x ≤ y) (insert_unmerged leaf xs)
insert_above x leaf [] h all = unfold insert_unmerged in (h, tt)
insert_above x leaf (y ∷ ys) h (first, rest) = elim (lt_or_ge y leaf) [
  | inl less ↦ rw (insert_later leaf y ys less) (first, insert_above x leaf ys h rest)
  | inr more ↦ rw (insert_here leaf y ys more) (h, (first, rest))
]

above_all : (x y : ℕ) (xs : List ℕ) → x ≤ y → All (λ z. y ≤ z) xs → All (λ z. x ≤ z) xs
above_all x y [] h all = tt
above_all x y (z ∷ zs) h (first, rest) = (omega arith, above_all x y zs h rest)

pub insert_unmerged-IsSorted :
    (leaf : ℕ) (xs : List ℕ) → IsSorted xs → IsSorted (insert_unmerged leaf xs)
insert_unmerged-IsSorted leaf [] s = unfold insert_unmerged in (tt, tt)
insert_unmerged-IsSorted leaf (x ∷ xs) (first, rest) = elim (lt_or_ge x leaf) [
  | inl less ↦
      rw (insert_later leaf x xs less)
        (insert_above x leaf xs (omega arith) first, insert_unmerged-IsSorted leaf xs rest)
  | inr more ↦
      rw (insert_here leaf x xs more) ((more, above_all leaf x xs more first), (first, rest))
]

pub insert_unmerged-Perm : (leaf : ℕ) (xs : List ℕ) → Perm (insert_unmerged leaf xs) (leaf ∷ xs)
insert_unmerged-Perm leaf [] = unfold insert_unmerged in Perm.refl (leaf ∷ [])
insert_unmerged-Perm leaf (x ∷ xs) = elim (lt_or_ge x leaf) [
  | inl less ↦
      rw (insert_later leaf x xs less)
        (Perm.trans (Perm.cons x (insert_unmerged-Perm leaf xs)) (Perm.swap leaf x xs))
  | inr more ↦ rw (insert_here leaf x xs more) (Perm.refl (leaf ∷ x ∷ xs))
]

-- A node with the leaf among its unmerged leaves, once more than before, and nothing else changed:
-- a blank node stays blank, a leaf stays as it is.
abbrev pub Marked : ℕ → Option Node → Option Node → Type 0
Marked leaf none after = after ≡ none
Marked leaf (some n) after =
    ((n.parent ≡ none) × (after ≡ some n))
    ⊎ ((p : ParentNode) × (ul : List ℕ) × (n.parent ≡ some p)
        × (after ≡ some (record n { parent = some (record p { unmerged_leaves = ul }) }))
        × Perm ul (leaf ∷ p.unmerged_leaves))

pub mark_unmerged-Marked : (leaf : ℕ) (o : Option Node) → Marked leaf o (mark_unmerged leaf o)
unfolding mark_unmerged
mark_unmerged-Marked leaf none = refl
mark_unmerged-Marked leaf (some n) = elim (Option-cases n.parent) [
  | inl no_parent ↦ inl (no_parent, simp no_parent)
  | inr (p, is) ↦ inr (p, _, is, rw is refl, insert_unmerged-Perm leaf p.unmerged_leaves)
]
