-- ===== src/Tree/RatchetTree/Mutate/Ancestors.antt =====
-- Which nodes are above a node is decided by the walk to the root.
use mls_go.Prelude.{
  ℕ, zero, suc, ◌+◌, ◌≤◌, ◌<◌, ◌≡◌, sym, ap, subst, ◌∙◌, ◌⊎◌, inl, inr, none, some, arith,
  Option-cases,
}
use native.Mathlib.Decide.{ℕ_discrete}
use mls_go.Tree.Math.{node_width, parent}
use mls_go.Tree.Math.Coordinates.{node}
use mls_go.Tree.RatchetTree.Mutate.Path.{IsTree, Ancestor, here, above, parent-above}

no_parent : {n p x : ℕ} → parent x n ≡ none → ¬ Ancestor n p x
no_parent stop (here h) = cc
no_parent stop (above h a) = cc

same_some : {a b : ℕ} → some a ≡ some b → a ≡ b
same_some h = ground (arith, h)

-- An ancestor is the parent or above it.
parent_or_above : {n p x y : ℕ} → parent x n ≡ some y → Ancestor n p x → (y ≡ p) ⊎ Ancestor n p y
parent_or_above up (here h) = inl (same_some (sym up ∙ h))
parent_or_above {n} {p} up (above h a) = inr (subst (Ancestor n p) (same_some (sym h ∙ up)) a)

from_parent :
    {n p x y : ℕ}
    → parent x n ≡ some y
    → Dec (y ≡ p)
    → Ancestor n p y ⊎ ¬ Ancestor n p y
    → Ancestor n p x ⊎ ¬ Ancestor n p x
from_parent up (yes same) other = inl (here (up ∙ ap some same))
from_parent up (no apart) (inl a) = inl (above up a)
from_parent up (no apart) (inr outside) =
    inr (λ a. elim (parent_or_above up a) [ inl same ↦ apart same | inr a ↦ outside a ])

pub ancestor_or_not :
    (f n l k q x p : ℕ)
    → IsTree n l
    → x ≡ node k q
    → x < node_width n
    → l ≤ f + k
    → Ancestor n p x ⊎ ¬ Ancestor n p x
ancestor_or_not zero n l k q x p tree e inside h = elim (Option-cases (parent x n)) [
  | inl stop ↦ inr (no_parent stop)
  | inr (y, up) ↦
      let (k', q', e', higher, below, near) = parent-above n l x y k q tree e inside up in
      absurd (omega arith)
]
ancestor_or_not (suc f) n l k q x p tree e inside h = elim (Option-cases (parent x n)) [
  | inl stop ↦ inr (no_parent stop)
  | inr (y, up) ↦
      let (k', q', e', higher, below, near) = parent-above n l x y k q tree e inside up in
      from_parent up (ℕ_discrete y p) (ancestor_or_not f n l k' q' y p tree e' near (omega arith))
]
