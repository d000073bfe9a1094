-- ===== src/Group/EncryptedGroupSecrets.antt =====
-- mls/group/welcome.go, `EncryptedGroupSecrets`, and its wire form.
use mls_go.Prelude.{refl, All, Result, ok, ◌>>=◌, arith}
use mls_go.Syntax.Varint.{IsByte, Bytes}
use mls_go.Syntax.Builder.{Builder, write_opaque_v}
use mls_go.Syntax.Cursor.{Cursor, read_opaque_v}
use mls_go.Syntax.Format.{IsStrict}
use mls_go.Syntax.Format.Opaque.{opaque-IsStrict}
use mls_go.Syntax.Format.Struct.{first_field, field, done}
use mls_go.Syntax.Format.Message
use mls_go.Tree.HpkeCiphertext
use mls_go.Tree.HpkeCiphertext.{HpkeCiphertext}

pub record EncryptedGroupSecrets : Type 0 where
  pub new_member : Bytes
  pub encrypted_group_secrets : HpkeCiphertext

unfoldable pub marshal : Builder → EncryptedGroupSecrets → Result Builder
marshal b egs = do
  b ← write_opaque_v b egs.new_member
  b ← HpkeCiphertext.marshal b egs.encrypted_group_secrets
  ok b

unfoldable pub decode_encrypted_group_secrets : Cursor → Result (EncryptedGroupSecrets × Cursor)
decode_encrypted_group_secrets c = do
  (new_member, c) ← read_opaque_v c
  (encrypted_group_secrets, c) ← HpkeCiphertext.decode_hpke_ciphertext c
  ok (record { new_member = new_member; encrypted_group_secrets = encrypted_group_secrets }, c)

-- The fields hold what their Go types can hold.
pub record InRange (egs : EncryptedGroupSecrets) : Type 0 where
  pub new_member : All IsByte egs.new_member
  pub encrypted_group_secrets : HpkeCiphertext.InRange egs.encrypted_group_secrets

-- What `marshal` writes for a `EncryptedGroupSecrets` in range is appended to the buffer, and is decoded to the same
-- value whatever follows it. Bytes that decode to a `EncryptedGroupSecrets` are those that `marshal` writes for it,
-- at least one, and the value is in range. Decoding any bytes ends.
pub encrypted_group_secrets-IsStrict : IsStrict InRange marshal decode_encrypted_group_secrets
unfolding marshal decode_encrypted_group_secrets
encrypted_group_secrets-IsStrict =
    first_field (λ egs. egs.new_member) opaque-IsStrict (λ egs fits. fits.new_member)
      λ new_member h0.
        field (λ egs. egs.encrypted_group_secrets) HpkeCiphertext.hpke_ciphertext-IsStrict.format
          (λ egs fits. fits.0.encrypted_group_secrets)
          λ encrypted_group_secrets h1.
            done
              (record {
                new_member = new_member;
                encrypted_group_secrets = encrypted_group_secrets;
              })
              ((record { new_member = h0; encrypted_group_secrets = h1 }, refl), refl)
              (λ egs fits. ground arith)

abbrev pub marshal_mls : EncryptedGroupSecrets → Result Bytes
marshal_mls egs = Message.marshal_mls marshal egs

abbrev pub unmarshal_mls : Bytes → Result EncryptedGroupSecrets
unmarshal_mls wire = Message.unmarshal_mls decode_encrypted_group_secrets wire
