-- ===== src/Tree/RatchetTree/Tests.antt =====
-- A tree of two leaves, both blank, below a parent node.
use mls_go.Prelude.{◌≡◌, refl, none, some, [], ◌∷◌, ok, arith}
use mls_go.Syntax.Varint.{Bytes, write_varint, read_varint}
use mls_go.Syntax.Cursor.{read_uint8, read_opaque_v}
use mls_go.Syntax.Vector.{read_vector_v, read_optional}
use mls_go.Syntax.Format.Message
use mls_go.Tree.ParentNode.{ParentNode, decode_parent_node}
use mls_go.Tree.Node.{decode_node}
use mls_go.Tree.RatchetTree.{RatchetTree, fill, full_width, slot, parse_ratchet_tree, marshal_mls}
use mls_go.Tree.RatchetTree.Wire.{marshal_mls-parse_ratchet_tree}

abbrev parent : ParentNode
parent = record { encryption_key = 5 ∷ []; parent_hash = []; unmerged_leaves = [] }

abbrev tree : RatchetTree
tree = record { nodes = none ∷ some (record { leaf = none; parent = some parent }) ∷ none ∷ [] }

abbrev wire : Bytes
wire = 7 ∷ 0 ∷ 1 ∷ 2 ∷ 1 ∷ 5 ∷ 0 ∷ 0 ∷ []

marshal_mls-parse_ratchet_tree_example : marshal_mls tree ≡ ok wire
unfolding parse_ratchet_tree Message.unmarshal_mls read_vector_v read_opaque_v read_varint
    write_varint read_optional read_uint8 decode_node decode_parent_node fill slot full_width
marshal_mls-parse_ratchet_tree_example = marshal_mls-parse_ratchet_tree wire tree (omega arith) refl
