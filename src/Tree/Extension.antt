-- ===== src/Tree/Extension.antt =====
-- mls/tree/leaf.go, `Extension`: an extension by its 16-bit type, and its wire form.
use mls_go.Prelude.{ℕ, ◌^◌, ◌<◌, refl, All, Result, ok, ◌>>=◌, arith}
use mls_go.Syntax.Varint.{IsByte, Bytes}
use mls_go.Syntax.Builder.{Builder, write_opaque_v, write_uint16}
use mls_go.Syntax.Cursor.{Cursor, read_opaque_v, read_uint16}
use mls_go.Syntax.Format.{IsStrict}
use mls_go.Syntax.Format.Opaque.{opaque-IsFormat}
use mls_go.Syntax.Format.Scalars.{uint16-IsStrict}
use mls_go.Syntax.Format.Struct.{first_field, field, done}

pub record Extension : Type 0 where
  pub extension_type : ℕ
  pub extension_data : Bytes

unfoldable pub marshal : Builder → Extension → Result Builder
marshal b e = do
  let b = write_uint16 b e.extension_type
  b ← write_opaque_v b e.extension_data
  ok b

unfoldable pub decode_extension : Cursor → Result (Extension × Cursor)
decode_extension c = do
  (extension_type, c) ← read_uint16 c
  (extension_data, c) ← read_opaque_v c
  ok (record { extension_type = extension_type; extension_data = extension_data }, c)

-- The fields hold what their Go types can hold.
pub record InRange (e : Extension) : Type 0 where
  pub extension_type : e.extension_type < 2 ^ 16
  pub extension_data : All IsByte e.extension_data

-- What `marshal` writes for a `Extension` in range is appended to the buffer, and is decoded to the same
-- value whatever follows it. Bytes that decode to a `Extension` are those that `marshal` writes for it,
-- at least one, and the value is in range. Decoding any bytes ends.
pub extension-IsStrict : IsStrict InRange marshal decode_extension
unfolding marshal decode_extension
extension-IsStrict =
    first_field (λ e. e.extension_type) uint16-IsStrict (λ e fits. fits.extension_type)
      λ extension_type h0.
        field (λ e. e.extension_data) opaque-IsFormat (λ e fits. fits.0.extension_data)
          λ extension_data h1.
            done (record { extension_type = extension_type; extension_data = extension_data })
              ((record { extension_type = h0; extension_data = h1 }, refl), refl)
              (λ e fits. ground arith)
