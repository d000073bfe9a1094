-- ===== src/Tree/RatchetTree/Mutate.antt =====
-- mls/tree/mutate.go: the changes of the public tree. A method that changes its receiver returns the
-- new tree. No two trees of the model share a node, and none of the source's callers keeps one.
pub mod Path
pub mod Slots
pub mod Walk
pub mod Complete
pub mod Ancestors
pub mod Change
pub mod FindBlank
pub mod Leaves
pub mod Joins
pub mod Unmerged
pub mod Shape
mod Tests
use mls_go.Prelude.{
  ℕ, zero, suc, ◌+◌, ◌-◌, ◌*◌, ◌/◌, ◌%◌, ◌^◌, Bool, true, false, Option, none, some, List, [], ◌∷◌,
  ◌++◌, length, take, replicate, ltb, leb, ◌==◌, if◌then◌else◌, Result, ok, err, ◌>>=◌,
  leaf_out_of_range, blank_leaf, no_blank_slot,
}
use mls_go.Prelude.Dict.{bytes_equal}
use mls_go.Syntax.Varint.{Bytes}
use mls_go.Tree.Math.{root, parent}
use mls_go.Tree.LeafNode.{LeafNode}
use mls_go.Tree.ParentNode.{ParentNode}
use mls_go.Tree.Node.{Node}
use mls_go.Tree.RatchetTree.{
  RatchetTree, slot, full_width, width, leaf_count, parse_ratchet_tree, marshal_mls,
}

-- `nodes[i] = v`, for an index in range.
unfoldable pub set_node : List (Option Node) → ℕ → Option Node → List (Option Node)
set_node [] i v = []
set_node (n ∷ nodes) zero v = v ∷ nodes
set_node (n ∷ nodes) (suc i) v = n ∷ set_node nodes i v

unfoldable pub node_at : RatchetTree → ℕ → Option Node
unfolding slot
node_at t i = if leb (width t) i then none else slot t.nodes i

unfoldable pub leaf_node_at : RatchetTree → ℕ → Result LeafNode
unfolding node_at
leaf_node_at t leaf = elim (node_at t (2 * leaf % 2 ^ 32)) [
  | none ↦ err blank_leaf
  | some n ↦ elim n.leaf [ none ↦ err blank_leaf | some l ↦ ok l ]
]

abbrev has_key : Option Node → Bytes → Bool
has_key o key = elim o [
  | none ↦ false
  | some n ↦ elim n.leaf [ none ↦ false | some l ↦ bytes_equal l.encryption_key key ]
]

-- The loop of FindLeafByEncryptionKey over the even indices, from index `i` of the nodes left.
unfoldable pub find_key : List (Option Node) → ℕ → Bytes → Option ℕ
find_key [] i key = none
find_key (n ∷ []) i key = if has_key n key then some (i / 2) else none
find_key (n ∷ m ∷ nodes) i key =
    let rest = find_key nodes (i + 2) key in if has_key n key then some (i / 2) else rest

abbrev pub find_leaf_by_encryption_key : RatchetTree → Bytes → Option ℕ
find_leaf_by_encryption_key t key = find_key t.nodes 0 key

unfoldable pub clone : RatchetTree → Result RatchetTree
clone t = do wire ← marshal_mls t; parse_ratchet_tree wire

-- `for x != root { p, ok := Parent(x, leaves); ... x = p }`, which changes each node of the direct
-- path by `change`, with a bound on the rounds: each goes up a level.
unfoldable pub path_loop :
    (Option Node → Option Node) → ℕ → ℕ → ℕ → List (Option Node) → List (Option Node)
path_loop change zero leaves x nodes = nodes
path_loop change (suc fuel) leaves x nodes = elim (x == root leaves) [
  | true ↦ nodes
  | false ↦ elim (parent x leaves) [
    | none ↦ nodes
    | some p ↦ path_loop change fuel leaves p (set_node nodes p (change (slot nodes p)))
  ]
]

-- The body of the loop of UpdateLeaf and RemoveLeaf.
abbrev pub blank : Option Node → Option Node
blank n = none

abbrev pub leaf_slot : LeafNode → Option Node
leaf_slot ln = some (record { leaf = some ln; parent = none })

unfoldable pub update_leaf : RatchetTree → ℕ → LeafNode → Result RatchetTree
unfolding path_loop
update_leaf t leaf ln =
    if leb (width t) (2 * leaf % 2 ^ 32)
    then err leaf_out_of_range
    else ok (record {
      nodes =
          path_loop blank 32 (leaf_count t) (2 * leaf % 2 ^ 32)
            (set_node t.nodes (2 * leaf % 2 ^ 32) (leaf_slot ln));
    })

-- `for len(nodes) > 1 && nodes[len(nodes)-1] == nil`: the length that is left.
unfoldable pub trim_loop : List (Option Node) → ℕ → ℕ
trim_loop nodes zero = 0
trim_loop nodes (suc zero) = 1
trim_loop nodes (suc (suc e)) = elim (slot nodes (suc e)) [
  | some n ↦ suc (suc e)
  | none ↦ trim_loop nodes (suc e)
]

-- The blank nodes that fill the array up to `fullWidth`.
unfoldable pub pad : List (Option Node) → List (Option Node)
pad nodes = nodes ++ replicate (full_width (length nodes % 2 ^ 32) - length nodes) none

unfoldable pub trim : List (Option Node) → List (Option Node)
unfolding trim_loop
trim nodes = take (trim_loop nodes (length nodes)) nodes

unfoldable pub remove_leaf : RatchetTree → ℕ → Result RatchetTree
unfolding path_loop trim pad
remove_leaf t leaf =
    if leb (width t) (2 * leaf % 2 ^ 32)
    then err leaf_out_of_range
    else ok (record {
      nodes = pad (
          trim (
            path_loop blank 32 (leaf_count t) (2 * leaf % 2 ^ 32)
              (set_node t.nodes (2 * leaf % 2 ^ 32) none)));
    })

-- The scan for a blank leaf over the even indices, from index `i` of the nodes left.
unfoldable pub find_blank : List (Option Node) → ℕ → Option ℕ
find_blank [] i = none
find_blank (none ∷ nodes) i = some i
find_blank (some n ∷ []) i = none
find_blank (some n ∷ m ∷ nodes) i = find_blank nodes (i + 2)

-- The insertion before the first entry that is not smaller.
unfoldable pub insert_unmerged : ℕ → List ℕ → List ℕ
insert_unmerged leaf [] = leaf ∷ []
insert_unmerged leaf (u ∷ ul) =
    let rest = insert_unmerged leaf ul in if ltb u leaf then u ∷ rest else leaf ∷ u ∷ ul

-- The body of the loop of AddLeaf.
unfoldable pub mark_unmerged : ℕ → Option Node → Option Node
unfolding insert_unmerged
mark_unmerged leaf none = none
mark_unmerged leaf (some n) = elim n.parent [
  | none ↦ some n
  | some p ↦ some (record n {
    parent = some (record p { unmerged_leaves = insert_unmerged leaf p.unmerged_leaves });
  })
]

unfoldable pub grow : List (Option Node) → List (Option Node)
unfolding pad
grow nodes = pad (nodes ++ none ∷ none ∷ [])

-- The leaf is put at the blank slot `i`.
unfoldable pub place_leaf : List (Option Node) → LeafNode → ℕ → RatchetTree × ℕ
unfolding path_loop mark_unmerged
place_leaf nodes ln i = (
  record {
    nodes =
        path_loop (mark_unmerged (i / 2)) 32 ((length nodes % 2 ^ 32 + 1) % 2 ^ 32 / 2) i
          (set_node nodes i (leaf_slot ln));
  },
  i / 2,
)

unfoldable pub add_leaf : RatchetTree → LeafNode → Result (RatchetTree × ℕ)
unfolding place_leaf grow
add_leaf t ln = elim (find_blank t.nodes 0) [
  | some i ↦ ok (place_leaf t.nodes ln i)
  | none ↦ elim (find_blank (grow t.nodes) 0) [
    | some i ↦ ok (place_leaf (grow t.nodes) ln i)
    | none ↦ err no_blank_slot
  ]
]
