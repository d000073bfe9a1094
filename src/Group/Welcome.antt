-- ===== src/Group/Welcome.antt =====
-- mls/group/welcome.go, `Welcome`, and its wire form.
use mls_go.Prelude.{ℕ, ◌^◌, ◌<◌, refl, List, All, Result, ok, ◌>>=◌, arith}
use mls_go.Syntax.Varint.{IsByte, Bytes}
use mls_go.Syntax.Builder.{Builder, write_opaque_v, write_uint16}
use mls_go.Syntax.Cursor.{Cursor, read_opaque_v, read_uint16}
use mls_go.Syntax.Vector.{write_vector_v, read_vector_v}
use mls_go.Syntax.Format.{IsStrict}
use mls_go.Syntax.Format.Opaque.{opaque-IsFormat}
use mls_go.Syntax.Format.Scalars.{uint16-IsStrict}
use mls_go.Syntax.Format.Vector.{vector-IsStrict}
use mls_go.Syntax.Format.Struct.{first_field, field, done}
use mls_go.Syntax.Format.Message
use mls_go.Group.EncryptedGroupSecrets
use mls_go.Group.EncryptedGroupSecrets.{EncryptedGroupSecrets}

pub record Welcome : Type 0 where
  pub cipher_suite : ℕ
  pub secrets : List EncryptedGroupSecrets
  pub encrypted_group_info : Bytes

unfoldable pub marshal : Builder → Welcome → Result Builder
marshal b w = do
  let b = write_uint16 b w.cipher_suite
  b ← write_vector_v b w.secrets EncryptedGroupSecrets.marshal
  b ← write_opaque_v b w.encrypted_group_info
  ok b

unfoldable pub decode_welcome : Cursor → Result (Welcome × Cursor)
decode_welcome c = do
  (cipher_suite, c) ← read_uint16 c
  (secrets, c) ← read_vector_v c EncryptedGroupSecrets.decode_encrypted_group_secrets
  (encrypted_group_info, c) ← read_opaque_v c
  ok (
    record {
      cipher_suite = cipher_suite;
      secrets = secrets;
      encrypted_group_info = encrypted_group_info;
    },
    c,
  )

-- The fields hold what their Go types can hold.
pub record InRange (w : Welcome) : Type 0 where
  pub cipher_suite : w.cipher_suite < 2 ^ 16
  pub secrets : All EncryptedGroupSecrets.InRange w.secrets
  pub encrypted_group_info : All IsByte w.encrypted_group_info

-- What `marshal` writes for a `Welcome` in range is appended to the buffer, and is decoded to the same
-- value whatever follows it. Bytes that decode to a `Welcome` are those that `marshal` writes for it,
-- at least one, and the value is in range. Decoding any bytes ends.
pub welcome-IsStrict : IsStrict InRange marshal decode_welcome
unfolding marshal decode_welcome
welcome-IsStrict =
    first_field (λ w. w.cipher_suite) uint16-IsStrict (λ w fits. fits.cipher_suite)
      λ cipher_suite h0.
        field (λ w. w.secrets)
          (vector-IsStrict EncryptedGroupSecrets.encrypted_group_secrets-IsStrict).format
          (λ w fits. fits.0.secrets)
          λ secrets h1.
            field (λ w. w.encrypted_group_info) opaque-IsFormat
              (λ w fits. fits.0.0.encrypted_group_info)
              λ encrypted_group_info h2.
                done
                  (record {
                    cipher_suite = cipher_suite;
                    secrets = secrets;
                    encrypted_group_info = encrypted_group_info;
                  })
                  (
                    (
                      (record { cipher_suite = h0; secrets = h1; encrypted_group_info = h2 }, refl),
                      refl,
                    ),
                    refl,
                  )
                  (λ w fits. ground arith)

abbrev pub marshal_mls : Welcome → Result Bytes
marshal_mls w = Message.marshal_mls marshal w

abbrev pub unmarshal_mls : Bytes → Result Welcome
unmarshal_mls wire = Message.unmarshal_mls decode_welcome wire
