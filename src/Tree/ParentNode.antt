-- ===== src/Tree/ParentNode.antt =====
-- mls/tree/parent.go: an interior node of the ratchet tree, and its wire form.
use mls_go.Prelude.{ℕ, ◌^◌, ◌<◌, refl, List, All, Result, ok, ◌>>=◌, arith}
use mls_go.Syntax.Varint.{IsByte, Bytes}
use mls_go.Syntax.Builder.{Builder, write_opaque_v, write_uint32}
use mls_go.Syntax.Cursor.{Cursor, read_opaque_v, read_uint32}
use mls_go.Syntax.Vector.{write_vector_v, read_vector_v}
use mls_go.Syntax.Format.{IsStrict}
use mls_go.Syntax.Format.Opaque.{opaque-IsFormat, opaque-IsStrict}
use mls_go.Syntax.Format.Scalars.{uint32-IsStrict}
use mls_go.Syntax.Format.Vector.{vector-IsStrict}
use mls_go.Syntax.Format.Struct.{first_field, field, done}
use mls_go.Syntax.Format.Message

pub record ParentNode : Type 0 where
  pub encryption_key : Bytes
  pub parent_hash : Bytes
  pub unmerged_leaves : List ℕ

unfoldable pub marshal : Builder → ParentNode → Result Builder
marshal b p = do
  b ← write_opaque_v b p.encryption_key
  b ← write_opaque_v b p.parent_hash
  b ← write_vector_v b p.unmerged_leaves (λ b v. ok (write_uint32 b v))
  ok b

unfoldable pub decode_parent_node : Cursor → Result (ParentNode × Cursor)
decode_parent_node c = do
  (encryption_key, c) ← read_opaque_v c
  (parent_hash, c) ← read_opaque_v c
  (unmerged_leaves, c) ← read_vector_v c read_uint32
  ok (
    record {
      encryption_key = encryption_key;
      parent_hash = parent_hash;
      unmerged_leaves = unmerged_leaves;
    },
    c,
  )

-- The fields hold what their Go types can hold.
pub record InRange (p : ParentNode) : Type 0 where
  pub encryption_key : All IsByte p.encryption_key
  pub parent_hash : All IsByte p.parent_hash
  pub unmerged_leaves : All (λ v. v < 2 ^ 32) p.unmerged_leaves

-- What `marshal` writes for a `ParentNode` in range is appended to the buffer, and is decoded to the same
-- value whatever follows it. Bytes that decode to a `ParentNode` are those that `marshal` writes for it,
-- at least one, and the value is in range. Decoding any bytes ends.
pub parent_node-IsStrict : IsStrict InRange marshal decode_parent_node
unfolding marshal decode_parent_node
parent_node-IsStrict =
    first_field (λ p. p.encryption_key) opaque-IsStrict (λ p fits. fits.encryption_key)
      λ encryption_key h0.
        field (λ p. p.parent_hash) opaque-IsFormat (λ p fits. fits.0.parent_hash)
          λ parent_hash h1.
            field (λ p. p.unmerged_leaves) (vector-IsStrict uint32-IsStrict).format
              (λ p fits. fits.0.0.unmerged_leaves)
              λ unmerged_leaves h2.
                done
                  (record {
                    encryption_key = encryption_key;
                    parent_hash = parent_hash;
                    unmerged_leaves = unmerged_leaves;
                  })
                  (
                    (
                      (
                        record { encryption_key = h0; parent_hash = h1; unmerged_leaves = h2 },
                        refl,
                      ),
                      refl,
                    ),
                    refl,
                  )
                  (λ p fits. ground arith)

abbrev pub marshal_mls : ParentNode → Result Bytes
marshal_mls p = Message.marshal_mls marshal p

abbrev pub unmarshal_mls : Bytes → Result ParentNode
unmarshal_mls wire = Message.unmarshal_mls decode_parent_node wire
