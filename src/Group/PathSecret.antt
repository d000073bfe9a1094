-- ===== src/Group/PathSecret.antt =====
-- mls/group/welcome.go, `PathSecret`, and its wire form.
use mls_go.Prelude.{refl, All, Result, ok, ◌>>=◌, arith}
use mls_go.Syntax.Varint.{IsByte, Bytes}
use mls_go.Syntax.Builder.{Builder, write_opaque_v}
use mls_go.Syntax.Cursor.{Cursor, read_opaque_v}
use mls_go.Syntax.Format.{IsStrict}
use mls_go.Syntax.Format.Opaque.{opaque-IsStrict}
use mls_go.Syntax.Format.Struct.{first_field, done}
use mls_go.Syntax.Format.Message

pub record PathSecret : Type 0 where
  pub path_secret : Bytes

unfoldable pub marshal : Builder → PathSecret → Result Builder
marshal b ps = do b ← write_opaque_v b ps.path_secret; ok b

unfoldable pub decode_path_secret : Cursor → Result (PathSecret × Cursor)
decode_path_secret c = do
  (path_secret, c) ← read_opaque_v c
  ok (record { path_secret = path_secret }, c)

-- The fields hold what their Go types can hold.
pub record InRange (ps : PathSecret) : Type 0 where
  pub path_secret : All IsByte ps.path_secret

-- What `marshal` writes for a `PathSecret` in range is appended to the buffer, and is decoded to the same
-- value whatever follows it. Bytes that decode to a `PathSecret` are those that `marshal` writes for it,
-- at least one, and the value is in range. Decoding any bytes ends.
pub path_secret-IsStrict : IsStrict InRange marshal decode_path_secret
unfolding marshal decode_path_secret
path_secret-IsStrict =
    first_field (λ ps. ps.path_secret) opaque-IsStrict (λ ps fits. fits.path_secret)
      λ path_secret h0.
        done (record { path_secret = path_secret }) (record { path_secret = h0 }, refl)
          (λ ps fits. ground arith)

abbrev pub marshal_mls : PathSecret → Result Bytes
marshal_mls ps = Message.marshal_mls marshal ps

abbrev pub unmarshal_mls : Bytes → Result PathSecret
unmarshal_mls wire = Message.unmarshal_mls decode_path_secret wire
