-- ===== src/Tree/HpkeCiphertext.antt =====
-- mls/tree/updatepath.go, `HPKECiphertext`, and its wire form.
use mls_go.Prelude.{refl, All, Result, ok, ◌>>=◌, arith}
use mls_go.Syntax.Varint.{IsByte, Bytes}
use mls_go.Syntax.Builder.{Builder, write_opaque_v}
use mls_go.Syntax.Cursor.{Cursor, read_opaque_v}
use mls_go.Syntax.Format.{IsStrict}
use mls_go.Syntax.Format.Opaque.{opaque-IsFormat, opaque-IsStrict}
use mls_go.Syntax.Format.Struct.{first_field, field, done}

pub record HpkeCiphertext : Type 0 where
  pub kem_output : Bytes
  pub ciphertext : Bytes

unfoldable pub marshal : Builder → HpkeCiphertext → Result Builder
marshal b ct = do b ← write_opaque_v b ct.kem_output; b ← write_opaque_v b ct.ciphertext; ok b

unfoldable pub decode_hpke_ciphertext : Cursor → Result (HpkeCiphertext × Cursor)
decode_hpke_ciphertext c = do
  (kem_output, c) ← read_opaque_v c
  (ciphertext, c) ← read_opaque_v c
  ok (record { kem_output = kem_output; ciphertext = ciphertext }, c)

-- The fields hold what their Go types can hold.
pub record InRange (ct : HpkeCiphertext) : Type 0 where
  pub kem_output : All IsByte ct.kem_output
  pub ciphertext : All IsByte ct.ciphertext

-- What `marshal` writes for a `HpkeCiphertext` in range is appended to the buffer, and is decoded to the same
-- value whatever follows it. Bytes that decode to a `HpkeCiphertext` are those that `marshal` writes for it,
-- at least one, and the value is in range. Decoding any bytes ends.
pub hpke_ciphertext-IsStrict : IsStrict InRange marshal decode_hpke_ciphertext
unfolding marshal decode_hpke_ciphertext
hpke_ciphertext-IsStrict =
    first_field (λ ct. ct.kem_output) opaque-IsStrict (λ ct fits. fits.kem_output)
      λ kem_output h0.
        field (λ ct. ct.ciphertext) opaque-IsFormat (λ ct fits. fits.0.ciphertext)
          λ ciphertext h1.
            done (record { kem_output = kem_output; ciphertext = ciphertext })
              ((record { kem_output = h0; ciphertext = h1 }, refl), refl) (λ ct fits. ground arith)
