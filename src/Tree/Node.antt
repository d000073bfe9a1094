-- ===== src/Tree/Node.antt =====
-- mls/tree/node.go, `Node`: a populated node of the ratchet tree, and its wire form.
use mls_go.Prelude.{
  ℕ, ◌^◌, ◌<◌, ◌≡◌, refl, Option, none, some, Result, ok, err, ◌>>=◌, if◌then◌else◌, ◌==◌,
  empty_node, invalid_node_type, arith,
}
use mls_go.Syntax.Varint.{Bytes}
use mls_go.Syntax.Builder.{Builder, write_uint8}
use mls_go.Syntax.Cursor.{Cursor, read_uint8}
use mls_go.Syntax.Format.{IsFormat, IsStrict}
use mls_go.Syntax.Format.Scalars.{uint8-IsStrict}
use mls_go.Syntax.Format.Struct.{first_field, refused, restrict, same-IsStrict}
use mls_go.Syntax.Format.Union.{branch, case}
use mls_go.Syntax.Format.Message
use mls_go.Tree.LeafNode
use mls_go.Tree.LeafNode.{LeafNode}
use mls_go.Tree.ParentNode
use mls_go.Tree.ParentNode.{ParentNode}

pub record Node : Type 0 where
  pub leaf : Option LeafNode
  pub parent : Option ParentNode

abbrev of_leaf : ℕ → LeafNode → Node
of_leaf t a = record { leaf = some a; parent = none }

abbrev of_parent : ℕ → ParentNode → Node
of_parent t a = record { leaf = none; parent = some a }

unfoldable pub marshal : Builder → Node → Result Builder
marshal b n = elim n.leaf [
  | some l ↦ LeafNode.marshal (write_uint8 b 1) l
  | none ↦ elim n.parent [ some p ↦ ParentNode.marshal (write_uint8 b 2) p | none ↦ err empty_node ]
]

decode_body : ℕ → Cursor → Result (Node × Cursor)
decode_body t c =
    if t == 1
    then (do (a, c) ← LeafNode.decode_leaf_node c; ok (of_leaf t a, c))
    else if t == 2
    then (do (a, c) ← ParentNode.decode_parent_node c; ok (of_parent t a, c))
    else err invalid_node_type

unfoldable pub decode_node : Cursor → Result (Node × Cursor)
unfolding decode_body
decode_node c = do (t, c) ← read_uint8 c; decode_body t c

-- The tag that is written for a node; an empty node has none.
abbrev node_type : Node → ℕ
node_type n = elim n.leaf [ some l ↦ 1 | none ↦ elim n.parent [ some p ↦ 2 | none ↦ 0 ] ]

abbrev Fits : Node → ℕ → Type 0
Fits n k =
    if k == 1
    then ((a : LeafNode) × LeafNode.InRange a × (n ≡ of_leaf 1 a))
    else if k == 2
    then ((a : ParentNode) × ParentNode.InRange a × (n ≡ of_parent 2 a))
    else Unit

-- Exactly one of the two is set, and is in range; or neither is, and the node is not written.
pub record InRange (n : Node) : Type 0 where
  pub body : Fits n (node_type n)

-- `marshal` with the tag written first.
marshal_body : Builder → Node → Result Builder
marshal_body b n =
    if node_type n == 1
    then (elim n.leaf [ none ↦ err empty_node | some a ↦ LeafNode.marshal b a ])
    else if node_type n == 2
    then (elim n.parent [ none ↦ err empty_node | some a ↦ ParentNode.marshal b a ])
    else err empty_node

abbrev marshal_flat : Builder → Node → Result Builder
marshal_flat b n = do let b = write_uint8 b (node_type n); marshal_body b n

body-IsFormat :
    (t : ℕ) → IsFormat (λ n. Fits n (node_type n) × (node_type n ≡ t)) marshal_body (decode_body t)
unfolding marshal_body decode_body
body-IsFormat t =
    branch node_type t 1
      (case node_type Fits 1 of_leaf LeafNode.leaf_node-IsStrict.format (λ n h. h)
        (λ a q. (a, q, refl)) (λ a. refl) (λ b a. refl) t)
      λ _.
        branch node_type t 2
          (case node_type Fits 2 of_parent ParentNode.parent_node-IsStrict.format (λ n h. h)
            (λ a q. (a, q, refl)) (λ a. refl) (λ b a. refl) t)
          λ _. refused empty_node invalid_node_type (λ q. cc)

type_small : (n : Node) → node_type n < 2 ^ 8
type_small n = ground arith

flat-IsStrict : IsStrict InRange marshal_flat decode_node
unfolding marshal_body decode_node
flat-IsStrict =
    first_field node_type uint8-IsStrict (λ n h. type_small n)
      λ t small.
        restrict (body-IsFormat t) (λ n h. (h.0.body, h.1)) (λ n h. (record { body = h.0 }, h.1))

-- What `marshal` writes for a `Node` in range is appended to the buffer, and is decoded to the same
-- value whatever follows it. Bytes that decode to a `Node` are those that `marshal` writes for it,
-- at least one, and the value is in range. Decoding any bytes ends.
pub node-IsStrict : IsStrict InRange marshal decode_node
unfolding marshal marshal_body
node-IsStrict = same-IsStrict flat-IsStrict (λ b n fits. ground arith)

abbrev pub marshal_mls : Node → Result Bytes
marshal_mls n = Message.marshal_mls marshal n
