-- ===== src/Group/GroupSecrets.antt =====
-- mls/group/welcome.go, `GroupSecrets`: what a Welcome encrypts for one new member; its wire form.
use mls_go.Prelude.{refl, List, All, Option, Result, ok, ◌>>=◌, arith}
use mls_go.Syntax.Varint.{IsByte, Bytes}
use mls_go.Syntax.Builder.{Builder, write_opaque_v}
use mls_go.Syntax.Cursor.{Cursor, read_opaque_v}
use mls_go.Syntax.Vector.{write_vector_v, read_vector_v, write_optional, read_optional}
use mls_go.Syntax.Format.{IsStrict}
use mls_go.Syntax.Format.Opaque.{opaque-IsStrict}
use mls_go.Syntax.Format.Vector.{vector-IsStrict}
use mls_go.Syntax.Format.Optional.{AllSome, optional-IsFormat}
use mls_go.Syntax.Format.Struct.{first_field, field, done}
use mls_go.Syntax.Format.Message
use mls_go.Group.PathSecret
use mls_go.Group.PathSecret.{PathSecret}
use mls_go.KeySchedule.PreSharedKeyId
use mls_go.KeySchedule.PreSharedKeyId.{PreSharedKeyId}

pub record GroupSecrets : Type 0 where
  pub joiner_secret : Bytes
  pub path_secret : Option PathSecret
  pub psks : List PreSharedKeyId

unfoldable pub marshal : Builder → GroupSecrets → Result Builder
marshal b gs = do
  b ← write_opaque_v b gs.joiner_secret
  b ← write_optional b gs.path_secret PathSecret.marshal
  b ← write_vector_v b gs.psks PreSharedKeyId.marshal
  ok b

unfoldable pub decode_group_secrets : Cursor → Result (GroupSecrets × Cursor)
decode_group_secrets c = do
  (joiner_secret, c) ← read_opaque_v c
  (path_secret, c) ← read_optional c PathSecret.decode_path_secret
  (psks, c) ← read_vector_v c PreSharedKeyId.decode_pre_shared_key_id
  ok (record { joiner_secret = joiner_secret; path_secret = path_secret; psks = psks }, c)

-- The fields hold what their Go types can hold.
pub record InRange (gs : GroupSecrets) : Type 0 where
  pub joiner_secret : All IsByte gs.joiner_secret
  pub path_secret : AllSome PathSecret.InRange gs.path_secret
  pub psks : All PreSharedKeyId.InRange gs.psks

-- What `marshal` writes for a `GroupSecrets` in range is appended to the buffer, and is decoded to the same
-- value whatever follows it. Bytes that decode to a `GroupSecrets` are those that `marshal` writes for it,
-- at least one, and the value is in range. Decoding any bytes ends.
pub group_secrets-IsStrict : IsStrict InRange marshal decode_group_secrets
unfolding marshal decode_group_secrets
group_secrets-IsStrict =
    first_field (λ gs. gs.joiner_secret) opaque-IsStrict (λ gs fits. fits.joiner_secret)
      λ joiner_secret h0.
        field (λ gs. gs.path_secret) (optional-IsFormat PathSecret.path_secret-IsStrict.format)
          (λ gs fits. fits.0.path_secret)
          λ path_secret h1.
            field (λ gs. gs.psks) (vector-IsStrict PreSharedKeyId.pre_shared_key_id-IsStrict).format
              (λ gs fits. fits.0.0.psks)
              λ psks h2.
                done
                  (record { joiner_secret = joiner_secret; path_secret = path_secret; psks = psks })
                  (((record { joiner_secret = h0; path_secret = h1; psks = h2 }, refl), refl), refl)
                  (λ gs fits. ground arith)

abbrev pub marshal_mls : GroupSecrets → Result Bytes
marshal_mls gs = Message.marshal_mls marshal gs

abbrev pub unmarshal_mls : Bytes → Result GroupSecrets
unmarshal_mls wire = Message.unmarshal_mls decode_group_secrets wire
