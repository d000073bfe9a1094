-- ===== src/Tree/RatchetTree/Mutate/Walk.antt =====
-- What the loop along the direct path changes.
use mls_go.Prelude.{
  ℕ, zero, suc, ◌+◌, ◌≤◌, ◌<◌, ◌≡◌, ◌≢◌, refl, sym, ap, subst, ◌∙◌, Option, none, some, List,
  length, arith, inl, inr, Option-cases, ==_iff,
}
use mls_go.Tree.Math.{root, node_width, parent, level}
use mls_go.Tree.Math.Coordinates.{node}
use mls_go.Tree.Math.Steps.{level-node}
use mls_go.Tree.Node.{Node}
use mls_go.Tree.RatchetTree.{slot}
use mls_go.Tree.RatchetTree.Mutate.{set_node, path_loop}
use mls_go.Tree.RatchetTree.Mutate.Slots.{slot-set_node, slot-set_node_ne, length-set_node}
use mls_go.Tree.RatchetTree.Mutate.Path.{
  IsTree, Ancestor, here, above, parent-above, ancestor-above, not_root,
}

pub not_own_ancestor :
    (n l k q x : ℕ) → IsTree n l → x ≡ node k q → x < node_width n → ¬ Ancestor n x x
not_own_ancestor n l k q x tree e inside a =
    let (k', q', e', up, below, near) = ancestor-above l k q tree e inside a in
    omega
      (arith, level-node k q (omega arith), level-node k' q' (omega arith), ap level (sym e ∙ e'))

pub written :
    (nodes : List (Option Node)) (i : ℕ) (v : Option Node)
    → i < length nodes
    → slot (set_node nodes i v) i ≡ v
written nodes i v h = ground (arith, slot-set_node nodes i i v h)

module _ (change : Option Node → Option Node) where
  -- One round of the loop.
  round :
      (fuel n x p : ℕ) (nodes : List (Option Node))
      → parent x n ≡ some p
      → x ≢ root n
      → path_loop change (suc fuel) n x nodes
        ≡ path_loop change fuel n p (set_node nodes p (change (slot nodes p)))
  unfolding path_loop
  round fuel n x p nodes h other = ground (arith, ==_iff x (root n))

  ends :
      (fuel n x : ℕ) (nodes : List (Option Node))
      → parent x n ≡ none
      → path_loop change fuel n x nodes ≡ nodes
  unfolding path_loop
  ends zero n x nodes h = refl
  ends (suc fuel) n x nodes h = ground arith

  pub length-path_loop :
      (fuel n x : ℕ) (nodes : List (Option Node))
      → length (path_loop change fuel n x nodes) ≡ length nodes
  unfolding path_loop
  length-path_loop zero n x nodes = refl
  length-path_loop (suc fuel) n x nodes = elim (Option-cases (parent x n)) [
    | inl stop ↦ ground arith
    | inr (p, up) ↦ ground (
      arith,
      length-path_loop fuel n p (set_node nodes p (change (slot nodes p))),
      length-set_node nodes p (change (slot nodes p)),
    )
  ]

  -- A node that is no ancestor keeps what it holds.
  pub path_loop_keeps :
      (fuel n x j : ℕ) (nodes : List (Option Node))
      → ¬ Ancestor n j x
      → slot (path_loop change fuel n x nodes) j ≡ slot nodes j
  path_loop_keeps zero n x j nodes outside = unfold path_loop in refl
  path_loop_keeps (suc fuel) n x j nodes outside = elim (Option-cases (parent x n)) [
    | inl stop ↦ ap (λ t. slot t j) (ends (suc fuel) n x nodes stop)
    | inr (p, up) ↦
        ap (λ t. slot t j) (round fuel n x p nodes up (not_root n x p up))
        ∙ path_loop_keeps fuel n p j (set_node nodes p (change (slot nodes p)))
            (λ a. outside (above up a))
        ∙ slot-set_node_ne nodes p j (change (slot nodes p))
            (λ same. outside (here (up ∙ ap some same)))
  ]

  -- An ancestor is changed once, from what it held.
  pub path_loop-Ancestor :
      (fuel n l k q x p : ℕ) (nodes : List (Option Node))
      → IsTree n l
      → x ≡ node k q
      → x < node_width n
      → node_width n ≤ length nodes
      → l ≤ fuel + k
      → Ancestor n p x
      → slot (path_loop change fuel n x nodes) p ≡ change (slot nodes p)
  path_loop-Ancestor zero n l k q x p nodes tree e inside full h a =
      let (k', q', e', up, below, near) = ancestor-above l k q tree e inside a in
      absurd (omega arith)
  path_loop-Ancestor (suc fuel) n l k q x p nodes tree e inside full h (here up) =
      let (k', q', e', higher, below, near) = parent-above n l x p k q tree e inside up in
      ap (λ t. slot t p) (round fuel n x p nodes up (not_root n x p up))
      ∙ path_loop_keeps fuel n p p (set_node nodes p (change (slot nodes p)))
          (not_own_ancestor n l k' q' p tree e' near)
      ∙ written nodes p (change (slot nodes p)) (omega arith)
  path_loop-Ancestor (suc fuel) n l k q x p nodes tree e inside full h (above {y = y} up a) =
      let (k', q', e', higher, below, near) = parent-above n l x y k q tree e inside up in
      let apart : y ≢ p = λ same.
        not_own_ancestor n l k' q' y tree e' near
          (subst (λ (t : ℕ). Ancestor n t y) (sym same) a) in
      ap (λ t. slot t p) (round fuel n x y nodes up (not_root n x y up))
      ∙ path_loop-Ancestor fuel n l k' q' y p (set_node nodes y (change (slot nodes y))) tree e'
          near (omega (arith, length-set_node nodes y (change (slot nodes y)))) (omega arith) a
      ∙ ap change (slot-set_node_ne nodes y p (change (slot nodes y)) apart)
