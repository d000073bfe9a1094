-- ===== src/Tree/RatchetTree/Mutate/Tests.antt =====
-- Changes of a tree of two leaves, both blank, below a parent node.
use mls_go.Prelude.{ℕ, zero, suc, ◌*◌, ◌≤◌, ◌≡◌, inr, refl, none, some, [], ◌∷◌, length, ok, arith}
use mls_go.Tree.Math.{root, parent}
use mls_go.Tree.LeafNode.{LeafNode}
use mls_go.Tree.ParentNode.{ParentNode}
use mls_go.Tree.RatchetTree.{RatchetTree, slot, leaf_count}
use mls_go.Tree.RatchetTree.Mutate.{
  update_leaf, remove_leaf, add_leaf, find_blank, set_node, blank, leaf_slot,
}
use mls_go.Tree.RatchetTree.Mutate.Complete.{IsComplete}
use mls_go.Tree.RatchetTree.Mutate.Change.{Changed}
use mls_go.Tree.RatchetTree.Mutate.Leaves.{update_leaf-Changed, remove_leaf-Changed}
use mls_go.Tree.RatchetTree.Mutate.Joins.{Added, add_leaf-Added}
use mls_go.Tree.RatchetTree.Mutate.Shape.{IsShaped, Fits, Run, start, next, added, Run-IsShaped}

abbrev above : ParentNode
above = record { encryption_key = 5 ∷ []; parent_hash = []; unmerged_leaves = [] }

abbrev tree : RatchetTree
tree = record { nodes = none ∷ some (record { leaf = none; parent = some above }) ∷ none ∷ [] }

abbrev some_leaf : LeafNode
some_leaf = record {
  encryption_key = 1 ∷ [];
  signature_key = 2 ∷ [];
  credential = record { credential_type = 1; identity = 3 ∷ []; certificates = [] };
  capabilities = record {
    versions = [];
    cipher_suites = [];
    extensions = [];
    proposals = [];
    credentials = [];
  };
  source = record { leaf_node_source = 2; lifetime = none; parent_hash = [] };
  extensions = [];
  signature = [];
}

-- The tree after a member joins at its first leaf.
abbrev joined : RatchetTree
joined = record {
  nodes =
      leaf_slot some_leaf
      ∷ some (record { leaf = none; parent = some (record above { unmerged_leaves = 0 ∷ [] }) })
      ∷ none
      ∷ [];
}

tree-Fits : (j : ℕ) → Fits j (slot tree.nodes j)
unfolding slot
tree-Fits zero = tt
tree-Fits (suc zero) = inr (refl, refl, (above, refl, tt))
tree-Fits (suc (suc zero)) = tt
tree-Fits (suc (suc (suc j))) = tt

tree-IsShaped : IsShaped tree
tree-IsShaped = record { complete = (1, refl); fits = tree-Fits }

join : Run tree joined
unfolding add_leaf slot find_blank root parent set_node
join = next start (omega arith) (added 0 some_leaf refl)

Run-IsShaped_example : IsShaped joined
Run-IsShaped_example = Run-IsShaped tree joined tree-IsShaped join

update_leaf-Changed_example :
    (t' : RatchetTree) × (update_leaf tree 0 some_leaf ≡ ok t')
    × (length t'.nodes ≡ length tree.nodes)
    × Changed blank (leaf_count tree) (2 * 0) (leaf_slot some_leaf) tree.nodes t'.nodes 1
update_leaf-Changed_example =
    update_leaf-Changed tree 0 1 some_leaf (1, refl) (omega arith) (omega arith)

remove_leaf-Changed_example :
    (t' : RatchetTree) × (remove_leaf joined 0 ≡ ok t')
    × IsComplete (length t'.nodes)
    × (length t'.nodes ≤ length joined.nodes)
    × Changed blank (leaf_count joined) (2 * 0) none joined.nodes t'.nodes 2
remove_leaf-Changed_example = remove_leaf-Changed joined 0 2 (1, refl) (omega arith) (omega arith)

add_leaf-Added_example :
    (t' : RatchetTree) × (leaf : ℕ) × (add_leaf tree some_leaf ≡ ok (t', leaf))
    × Added tree some_leaf 1 t' leaf
add_leaf-Added_example = add_leaf-Added tree some_leaf 1 (1, refl) (omega arith)
