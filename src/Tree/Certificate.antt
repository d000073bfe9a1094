-- ===== src/Tree/Certificate.antt =====
-- mls/tree/credential.go, `Certificate`: one X.509 certificate, and its wire form.
use mls_go.Prelude.{refl, All, Result, ok, ◌>>=◌, arith}
use mls_go.Syntax.Varint.{IsByte, Bytes}
use mls_go.Syntax.Builder.{Builder, write_opaque_v}
use mls_go.Syntax.Cursor.{Cursor, read_opaque_v}
use mls_go.Syntax.Format.{IsStrict}
use mls_go.Syntax.Format.Opaque.{opaque-IsStrict}
use mls_go.Syntax.Format.Struct.{first_field, done}

pub record Certificate : Type 0 where
  pub cert_data : Bytes

unfoldable pub marshal : Builder → Certificate → Result Builder
marshal b cert = do b ← write_opaque_v b cert.cert_data; ok b

unfoldable pub decode_certificate : Cursor → Result (Certificate × Cursor)
decode_certificate c = do (cert_data, c) ← read_opaque_v c; ok (record { cert_data = cert_data }, c)

-- The fields hold what their Go types can hold.
pub record InRange (cert : Certificate) : Type 0 where
  pub cert_data : All IsByte cert.cert_data

-- What `marshal` writes for a `Certificate` in range is appended to the buffer, and is decoded to the same
-- value whatever follows it. Bytes that decode to a `Certificate` are those that `marshal` writes for it,
-- at least one, and the value is in range. Decoding any bytes ends.
pub certificate-IsStrict : IsStrict InRange marshal decode_certificate
unfolding marshal decode_certificate
certificate-IsStrict =
    first_field (λ cert. cert.cert_data) opaque-IsStrict (λ cert fits. fits.cert_data)
      λ cert_data h0.
        done (record { cert_data = cert_data }) (record { cert_data = h0 }, refl)
          (λ cert fits. ground arith)
