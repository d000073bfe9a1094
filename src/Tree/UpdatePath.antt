-- ===== src/Tree/UpdatePath.antt =====
-- mls/tree/updatepath.go, `UpdatePath`, and its wire form.
use mls_go.Prelude.{refl, List, All, Result, ok, ◌>>=◌, arith}
use mls_go.Syntax.Varint.{Bytes}
use mls_go.Syntax.Builder.{Builder}
use mls_go.Syntax.Cursor.{Cursor}
use mls_go.Syntax.Vector.{write_vector_v, read_vector_v}
use mls_go.Syntax.Format.{IsStrict}
use mls_go.Syntax.Format.Vector.{vector-IsStrict}
use mls_go.Syntax.Format.Struct.{first_field, field, done}
use mls_go.Syntax.Format.Message
use mls_go.Tree.LeafNode
use mls_go.Tree.LeafNode.{LeafNode}
use mls_go.Tree.UpdatePathNode
use mls_go.Tree.UpdatePathNode.{UpdatePathNode}

pub record UpdatePath : Type 0 where
  pub leaf_node : LeafNode
  pub nodes : List UpdatePathNode

unfoldable pub marshal : Builder → UpdatePath → Result Builder
marshal b u = do
  b ← LeafNode.marshal b u.leaf_node
  b ← write_vector_v b u.nodes UpdatePathNode.marshal
  ok b

unfoldable pub decode_update_path : Cursor → Result (UpdatePath × Cursor)
decode_update_path c = do
  (leaf_node, c) ← LeafNode.decode_leaf_node c
  (nodes, c) ← read_vector_v c UpdatePathNode.decode_update_path_node
  ok (record { leaf_node = leaf_node; nodes = nodes }, c)

-- The fields hold what their Go types can hold.
pub record InRange (u : UpdatePath) : Type 0 where
  pub leaf_node : LeafNode.InRange u.leaf_node
  pub nodes : All UpdatePathNode.InRange u.nodes

-- What `marshal` writes for a `UpdatePath` in range is appended to the buffer, and is decoded to the same
-- value whatever follows it. Bytes that decode to a `UpdatePath` are those that `marshal` writes for it,
-- at least one, and the value is in range. Decoding any bytes ends.
pub update_path-IsStrict : IsStrict InRange marshal decode_update_path
unfolding marshal decode_update_path
update_path-IsStrict =
    first_field (λ u. u.leaf_node) LeafNode.leaf_node-IsStrict (λ u fits. fits.leaf_node)
      λ leaf_node h0.
        field (λ u. u.nodes) (vector-IsStrict UpdatePathNode.update_path_node-IsStrict).format
          (λ u fits. fits.0.nodes)
          λ nodes h1.
            done (record { leaf_node = leaf_node; nodes = nodes })
              ((record { leaf_node = h0; nodes = h1 }, refl), refl) (λ u fits. ground arith)

abbrev pub marshal_mls : UpdatePath → Result Bytes
marshal_mls u = Message.marshal_mls marshal u

abbrev pub unmarshal_mls : Bytes → Result UpdatePath
unmarshal_mls wire = Message.unmarshal_mls decode_update_path wire
