-- ===== src/Tree/RatchetTree/Mutate/Change.antt =====
-- What a change of a leaf and of the nodes above it does to each slot.
use mls_go.Prelude.{
  ℕ, ◌+◌, ◌*◌, ◌/◌, ◌%◌, ◌^◌, ◌<◌, ◌≡◌, ◌≢◌, refl, sym, ap, ◌∙◌, ◌⊎◌, inl, inr, Option, List,
  length, arith,
}
use mls_go.Tree.Math.{node_width}
use mls_go.Tree.Math.Coordinates.{node}
use mls_go.Tree.Math.Width.{node_width-value}
use mls_go.Tree.Node.{Node}
use mls_go.Tree.RatchetTree.{slot}
use mls_go.Tree.RatchetTree.Mutate.{set_node, path_loop}
use mls_go.Tree.RatchetTree.Mutate.Slots.{slot-set_node_ne, length-set_node}
use mls_go.Tree.RatchetTree.Mutate.Path.{some-IsTree, Ancestor}
use mls_go.Tree.RatchetTree.Mutate.Walk.{
  written, not_own_ancestor, path_loop_keeps, path_loop-Ancestor,
}
use mls_go.Tree.RatchetTree.Mutate.Ancestors.{ancestor_or_not}
use mls_go.Tree.RatchetTree.Mutate.Complete.{IsComplete}
use native.Mathlib.Decide.{ℕ_discrete}

-- The slot `j` of `after`, where a tree of `n` leaves has node `i` replaced by `v` and the nodes
-- above it changed: the node itself, a node above it, or any other.
abbrev pub Changed :
    (Option Node → Option Node)
    → ℕ
    → ℕ
    → Option Node
    → List (Option Node)
    → List (Option Node)
    → ℕ
    → Type 0
Changed change n i v before after j =
    ((j ≡ i) × (slot after j ≡ v))
    ⊎ (Ancestor n j i × (slot after j ≡ change (slot before j)))
    ⊎ ((j ≢ i) × (¬ Ancestor n j i) × (slot after j ≡ slot before j))

-- The number of leaves that the source computes from the length.
abbrev pub leaves_of : ℕ → ℕ
leaves_of w = (w % 2 ^ 32 + 1) % 2 ^ 32 / 2

-- The width of a tree with the leaves that a complete array has.
complete_width :
    (w : ℕ)
    → IsComplete w
    → w + 1 < 2 ^ 30
    → (0 < leaves_of w) × (leaves_of w < 2 ^ 29) × (node_width (leaves_of w) ≡ w)
complete_width w (k, e) h = (
  omega arith,
  omega arith,
  omega (arith, node_width-value (leaves_of w) (omega arith) (omega arith)),
)

module _ (change : Option Node → Option Node) where
  pub Changed-slots :
      (i j : ℕ) (v : Option Node) (nodes : List (Option Node))
      → IsComplete (length nodes)
      → length nodes + 1 < 2 ^ 30
      → 2 * i < length nodes
      → Changed change
          (leaves_of (length nodes))
          (2 * i)
          v
          nodes
          (path_loop change 32 (leaves_of (length nodes)) (2 * i) (set_node nodes (2 * i) v))
          j
  Changed-slots i j v nodes full small inside =
      let n = leaves_of (length nodes) in
      let (positive, few, wide) = complete_width (length nodes) full small in
      let (l, tree) = some-IsTree n positive few in
      let leaf : 2 * i ≡ node 0 i = unfold node in refl in
      let within : 2 * i < node_width n = omega arith in
      let same_length = length-set_node nodes (2 * i) v in
      elim (ℕ_discrete j (2 * i)) [
        | yes same ↦ inl (
          same,
          ap (slot _) same
              ∙ path_loop_keeps change 32 n (2 * i) (2 * i) (set_node nodes (2 * i) v)
                  (not_own_ancestor n l 0 i (2 * i) tree leaf within)
              ∙ written nodes (2 * i) v inside,
        )
        | no other ↦ elim (ancestor_or_not 32 n l 0 i (2 * i) j tree leaf within (omega arith)) [
          | inl a ↦ inr (
              inl (
                a,
                path_loop-Ancestor change 32 n l 0 i (2 * i) j (set_node nodes (2 * i) v) tree leaf
                      within (omega arith) (omega arith) a
                    ∙ ap change (slot-set_node_ne nodes (2 * i) j v (λ e. other (sym e))),
              ))
          | inr outside ↦ inr (
              inr (
                other,
                outside,
                path_loop_keeps change 32 n (2 * i) j (set_node nodes (2 * i) v) outside
                    ∙ slot-set_node_ne nodes (2 * i) j v (λ e. other (sym e)),
              ))
        ]
      ]
