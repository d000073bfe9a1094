-- ===== src/Tree/UpdatePathNode.antt =====
-- mls/tree/updatepath.go, `UpdatePathNode`, and its wire form.
use mls_go.Prelude.{refl, List, All, Result, ok, ◌>>=◌, arith}
use mls_go.Syntax.Varint.{IsByte, Bytes}
use mls_go.Syntax.Builder.{Builder, write_opaque_v}
use mls_go.Syntax.Cursor.{Cursor, read_opaque_v}
use mls_go.Syntax.Vector.{write_vector_v, read_vector_v}
use mls_go.Syntax.Format.{IsStrict}
use mls_go.Syntax.Format.Opaque.{opaque-IsStrict}
use mls_go.Syntax.Format.Vector.{vector-IsStrict}
use mls_go.Syntax.Format.Struct.{first_field, field, done}
use mls_go.Tree.HpkeCiphertext
use mls_go.Tree.HpkeCiphertext.{HpkeCiphertext}

pub record UpdatePathNode : Type 0 where
  pub encryption_key : Bytes
  pub encrypted_path_secret : List HpkeCiphertext

unfoldable pub marshal : Builder → UpdatePathNode → Result Builder
marshal b n = do
  b ← write_opaque_v b n.encryption_key
  b ← write_vector_v b n.encrypted_path_secret HpkeCiphertext.marshal
  ok b

unfoldable pub decode_update_path_node : Cursor → Result (UpdatePathNode × Cursor)
decode_update_path_node c = do
  (encryption_key, c) ← read_opaque_v c
  (encrypted_path_secret, c) ← read_vector_v c HpkeCiphertext.decode_hpke_ciphertext
  ok (record { encryption_key = encryption_key; encrypted_path_secret = encrypted_path_secret }, c)

-- The fields hold what their Go types can hold.
pub record InRange (n : UpdatePathNode) : Type 0 where
  pub encryption_key : All IsByte n.encryption_key
  pub encrypted_path_secret : All HpkeCiphertext.InRange n.encrypted_path_secret

-- What `marshal` writes for a `UpdatePathNode` in range is appended to the buffer, and is decoded to the same
-- value whatever follows it. Bytes that decode to a `UpdatePathNode` are those that `marshal` writes for it,
-- at least one, and the value is in range. Decoding any bytes ends.
pub update_path_node-IsStrict : IsStrict InRange marshal decode_update_path_node
unfolding marshal decode_update_path_node
update_path_node-IsStrict =
    first_field (λ n. n.encryption_key) opaque-IsStrict (λ n fits. fits.encryption_key)
      λ encryption_key h0.
        field (λ n. n.encrypted_path_secret)
          (vector-IsStrict HpkeCiphertext.hpke_ciphertext-IsStrict).format
          (λ n fits. fits.0.encrypted_path_secret)
          λ encrypted_path_secret h1.
            done
              (record {
                encryption_key = encryption_key;
                encrypted_path_secret = encrypted_path_secret;
              })
              ((record { encryption_key = h0; encrypted_path_secret = h1 }, refl), refl)
              (λ n fits. ground arith)
