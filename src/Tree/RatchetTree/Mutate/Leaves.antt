-- ===== src/Tree/RatchetTree/Mutate/Leaves.antt =====
-- What UpdateLeaf and RemoveLeaf do to each slot, and the trees they leave.
use mls_go.Prelude.{
  ℕ, ◌+◌, ◌*◌, ◌%◌, ◌^◌, ◌≤◌, ◌<◌, ◌≡◌, sym, ap, subst, ◌∙◌, inl, inr, false, Option, none, List,
  length, arith, leb, ok,
}
use mls_go.Tree.LeafNode.{LeafNode}
use mls_go.Tree.Node.{Node}
use mls_go.Tree.RatchetTree.{RatchetTree, slot, leaf_count, width}
use mls_go.Tree.RatchetTree.Mutate.{
  set_node, path_loop, blank, leaf_slot, update_leaf, remove_leaf, pad, trim,
}
use mls_go.Tree.RatchetTree.Mutate.Slots.{length-set_node}
use mls_go.Tree.RatchetTree.Mutate.Walk.{length-path_loop}
use mls_go.Tree.RatchetTree.Mutate.Complete.{IsComplete, slot-pad, slot-trim, repadded}
use mls_go.Tree.RatchetTree.Mutate.Change.{Changed, leaves_of, Changed-slots}

-- The array after the loop, for a leaf in range.
abbrev pub walked :
    (Option Node → Option Node) → List (Option Node) → ℕ → Option Node → List (Option Node)
walked change nodes i v = path_loop change 32 (leaves_of (length nodes)) i (set_node nodes i v)

pub length-walked :
    (change : Option Node → Option Node) (nodes : List (Option Node)) (i : ℕ) (v : Option Node)
    → length (walked change nodes i v) ≡ length nodes
length-walked change nodes i v =
    length-path_loop change 32 (leaves_of (length nodes)) i (set_node nodes i v)
    ∙ length-set_node nodes i v

in_range :
    (t : RatchetTree) (leaf : ℕ)
    → length t.nodes < 2 ^ 30
    → 2 * leaf < length t.nodes
    → (2 * leaf % 2 ^ 32 ≡ 2 * leaf) × (leb (width t) (2 * leaf % 2 ^ 32) ≡ false)
in_range t leaf small inside = ground arith

-- For a leaf in range of a tree of complete width with fewer than 2^29 leaves UpdateLeaf
-- succeeds: the leaf is replaced, the nodes above it are blank, and every other slot and the
-- width are as they were.
pub update_leaf-Changed :
    (t : RatchetTree) (leaf j : ℕ) (ln : LeafNode)
    → IsComplete (length t.nodes)
    → length t.nodes + 1 < 2 ^ 30
    → 2 * leaf < length t.nodes
    → (t' : RatchetTree) × (update_leaf t leaf ln ≡ ok t')
      × (length t'.nodes ≡ length t.nodes)
      × Changed blank (leaf_count t) (2 * leaf) (leaf_slot ln) t.nodes t'.nodes j
unfolding update_leaf
update_leaf-Changed t leaf j ln full small inside =
    let (same, ranged) = in_range t leaf (omega arith) inside in
    (
      record { nodes = walked blank t.nodes (2 * leaf) (leaf_slot ln) },
      rw ranged
          (ap (λ (i : ℕ). ok (record { nodes = walked blank t.nodes i (leaf_slot ln) })) same),
      length-walked blank t.nodes (2 * leaf) (leaf_slot ln),
      Changed-slots blank leaf j (leaf_slot ln) t.nodes full small inside,
    )

same_slot :
    (change : Option Node → Option Node) (n i : ℕ) (v : Option Node)
    (before after after' : List (Option Node)) (j : ℕ)
    → slot after' j ≡ slot after j
    → Changed change n i v before after j
    → Changed change n i v before after' j
same_slot change n i v before after after' j e (inl (same, h)) = inl (same, e ∙ h)
same_slot change n i v before after after' j e (inr (inl (a, h))) = inr (inl (a, e ∙ h))
same_slot change n i v before after after' j e (inr (inr (other, outside, h))) =
    inr (inr (other, outside, e ∙ h))

positive : (a w : ℕ) → a < w → 0 < w
positive a w h = omega arith

recut :
    (nodes : List (Option Node)) (w : ℕ)
    → length nodes ≡ w
    → 0 < w
    → w + 1 < 2 ^ 30
    → IsComplete w
    → (0 < length nodes) × IsComplete (length (pad (trim nodes))) × (length (pad (trim nodes)) ≤ w)
recut nodes w e h small full =
    let (complete, less) =
      repadded nodes (omega arith) (omega arith) (subst IsComplete (sym e) full) in
    (omega arith, complete, omega (arith, less, e))

-- For a leaf in range of a tree of complete width with fewer than 2^29 leaves RemoveLeaf
-- succeeds: the width stays complete and does not grow, the leaf and the nodes above it are
-- blank, and every other slot, cut off and filled up again or not, is as it was.
pub remove_leaf-Changed :
    (t : RatchetTree) (leaf j : ℕ)
    → IsComplete (length t.nodes)
    → length t.nodes + 1 < 2 ^ 30
    → 2 * leaf < length t.nodes
    → (t' : RatchetTree) × (remove_leaf t leaf ≡ ok t')
      × IsComplete (length t'.nodes)
      × (length t'.nodes ≤ length t.nodes)
      × Changed blank (leaf_count t) (2 * leaf) none t.nodes t'.nodes j
unfolding remove_leaf
remove_leaf-Changed t leaf j full small inside =
    let (same, ranged) = in_range t leaf (omega arith) inside in
    let cleared = walked blank t.nodes (2 * leaf) none in
    let wide = length-walked blank t.nodes (2 * leaf) none in
    let (long, complete, less) =
      recut cleared (length t.nodes) wide (positive _ _ inside) small full in
    (
      record { nodes = pad (trim cleared) },
      rw ranged
          (ap (λ (i : ℕ). ok (record { nodes = pad (trim (walked blank t.nodes i none)) })) same),
      complete,
      less,
      same_slot blank _ _ _ _ _ _ j (slot-pad (trim cleared) j ∙ slot-trim cleared j long)
          (Changed-slots blank leaf j none t.nodes full small inside),
    )
