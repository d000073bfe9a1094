-- ===== src/Tree/RatchetTree/Wire.antt =====
-- The wire form of the ratchet tree.
use mls_go.Prelude.{
  ℕ, ◌<◌, ◌≡◌, ap, ◌∙◌, Option, none, some, List, ◌++◌, length, replicate, All, arith, inl, inr,
  Option-cases, ok, >>=-eq-ok, ◌-◌, ◌%◌, ◌^◌, take,
}
use mls_go.Syntax.Varint.{Bytes, IsByte}
use mls_go.Syntax.Builder.{new_builder}
use mls_go.Syntax.Format.{IsFormat}
use mls_go.Syntax.Format.Vector.{vector-IsFormat}
use mls_go.Syntax.Format.Optional.{AllSome, optional-IsStrict}
use mls_go.Syntax.Format.Message
use mls_go.Syntax.Format.Message.{marshal-unmarshal}
use mls_go.Tree.Node
use mls_go.Tree.Node.{Node, node-IsStrict}
use mls_go.Tree.RatchetTree.{
  RatchetTree, full_width, end_loop, slot, read_nodes, write_nodes, fill, parse_ratchet_tree,
  marshal_mls,
}
use mls_go.Tree.RatchetTree.Blanks.{take-end_loop}

nodes-IsFormat : IsFormat (All (AllSome Node.InRange)) write_nodes read_nodes
nodes-IsFormat =
    vector-IsFormat (optional-IsStrict node-IsStrict.format).format
      (optional-IsStrict node-IsStrict.format).progress

-- What `fill` accepts ends with a node, and gets blanks behind.
filled_up :
    (nodes : List (Option Node)) (t : RatchetTree)
    → fill nodes ≡ ok t
    → (k : ℕ) × (n : Node) × (0 < length nodes)
      × (slot nodes (length nodes - 1) ≡ some n)
      × (t.nodes ≡ nodes ++ replicate k none)
unfolding fill
filled_up nodes t h = elim (Option-cases (slot nodes (length nodes - 1))) [
  | inl blank ↦ absurd (ground (arith, blank))
  | inr (n, last) ↦ (
    full_width (length nodes % 2 ^ 32) - length nodes,
    n,
    ground (arith, last),
    last,
    ground (arith, last),
  )
]

-- MarshalMLS of a ratchet tree that ParseRatchetTree has decoded, and filled up with blank
-- nodes, writes the bytes that it was decoded from.
pub marshal_mls-parse_ratchet_tree :
    (wire : Bytes) (t : RatchetTree)
    → All IsByte wire
    → parse_ratchet_tree wire ≡ ok t
    → marshal_mls t ≡ ok wire
unfolding parse_ratchet_tree marshal_mls
marshal_mls-parse_ratchet_tree wire t k h =
    let (nodes, h₁, h₂) = >>=-eq-ok (Message.unmarshal_mls read_nodes wire) _ h in
    let (blanks, n, some_node, last, shape) = filled_up nodes t h₂ in
    let (fits, sent) = marshal-unmarshal nodes-IsFormat wire nodes k h₁ in
    ap (λ (ns : List (Option Node)). write_nodes new_builder (take (end_loop ns (length ns)) ns))
      shape
    ∙ ap (write_nodes new_builder) (take-end_loop nodes blanks n some_node last)
    ∙ sent
