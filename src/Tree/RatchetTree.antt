-- ===== src/Tree/RatchetTree.antt =====
-- mls/tree/node.go, `RatchetTree`: the node array of the public tree, and its wire form, which
-- leaves out the blank nodes at the end. The cipher suite that the Go type also carries is not used
-- by these operations.
mod Blanks
mod Tests
pub mod FullWidth
pub mod Wire
pub mod Mutate
use mls_go.Prelude.{
  ℕ, zero, suc, ◌+◌, ◌-◌, ◌*◌, ◌/◌, ◌%◌, ◌^◌, Option, none, some, List, [], ◌∷◌, ◌++◌, length, take,
  replicate, ltb, ◌==◌, if◌then◌else◌, Result, ok, err, ◌>>=◌, empty_ratchet_tree, trailing_blank,
}
use mls_go.Syntax.Varint.{Bytes}
use mls_go.Syntax.Builder.{Builder, new_builder}
use mls_go.Syntax.Cursor.{Cursor}
use mls_go.Syntax.Vector.{write_vector_v, read_vector_v, write_optional, read_optional}
use mls_go.Syntax.Format.Message
use mls_go.Tree.Node
use mls_go.Tree.Node.{Node}

pub record RatchetTree : Type 0 where
  pub nodes : List (Option Node)

-- `for w < n { w = 2*w + 1 }`, with a bound on the rounds: `w` gains a digit in each.
unfoldable pub full_width_loop : ℕ → ℕ → ℕ → ℕ
full_width_loop zero n w = w
full_width_loop (suc fuel) n w =
    let rest = full_width_loop fuel n ((2 * w + 1) % 2 ^ 32) in if ltb w n then rest else w

unfoldable pub full_width : ℕ → ℕ
unfolding full_width_loop
full_width n = full_width_loop 32 n 1

-- `nodes[i]`, for an index in range.
unfoldable pub slot : List (Option Node) → ℕ → Option Node
slot [] i = none
slot (n ∷ nodes) zero = n
slot (n ∷ nodes) (suc i) = slot nodes i

-- `for end > 0 && nodes[end-1] == nil { end-- }`
unfoldable pub end_loop : List (Option Node) → ℕ → ℕ
end_loop nodes zero = 0
end_loop nodes (suc end) = elim (slot nodes end) [ some n ↦ suc end | none ↦ end_loop nodes end ]

abbrev pub write_nodes : Builder → List (Option Node) → Result Builder
write_nodes b nodes = write_vector_v b nodes (λ b n. write_optional b n Node.marshal)

abbrev pub read_nodes : Cursor → Result (List (Option Node) × Cursor)
read_nodes c = read_vector_v c (λ c. read_optional c Node.decode_node)

-- What is checked of the decoded nodes, and the blank nodes that fill the tree up.
unfoldable pub fill : List (Option Node) → Result RatchetTree
fill nodes =
    let blanks = replicate (full_width (length nodes % 2 ^ 32) - length nodes) none in
    if length nodes == 0 then err empty_ratchet_tree else elim (slot nodes (length nodes - 1)) [
      | none ↦ err trailing_blank
      | some n ↦ ok (record { nodes = nodes ++ blanks })
    ]

unfoldable pub parse_ratchet_tree : Bytes → Result RatchetTree
parse_ratchet_tree wire = do nodes ← Message.unmarshal_mls read_nodes wire; fill nodes

unfoldable pub marshal_mls : RatchetTree → Result Bytes
marshal_mls t = write_nodes new_builder (take (end_loop t.nodes (length t.nodes)) t.nodes)

abbrev pub width : RatchetTree → ℕ
width t = length t.nodes % 2 ^ 32

abbrev pub leaf_count : RatchetTree → ℕ
leaf_count t = (length t.nodes % 2 ^ 32 + 1) % 2 ^ 32 / 2
