-- ===== src/KeySchedule/PreSharedKeyId.antt =====
-- mls/keyschedule/psk.go, `PreSharedKeyID`: the identity of a pre-shared key, and its wire form. The
-- fields that depend on the type stand in the record `PskType`.
use mls_go.Prelude.{refl, All, Result, ok, ◌>>=◌, arith}
use mls_go.Syntax.Varint.{IsByte, Bytes}
use mls_go.Syntax.Builder.{Builder, write_opaque_v}
use mls_go.Syntax.Cursor.{Cursor, read_opaque_v}
use mls_go.Syntax.Format.{IsStrict}
use mls_go.Syntax.Format.Opaque.{opaque-IsFormat}
use mls_go.Syntax.Format.Struct.{first_field, field, done}
use mls_go.KeySchedule.PskType
use mls_go.KeySchedule.PskType.{PskType}

pub record PreSharedKeyId : Type 0 where
  pub psk_type : PskType
  pub psk_nonce : Bytes

unfoldable pub marshal : Builder → PreSharedKeyId → Result Builder
marshal b p = do b ← PskType.marshal b p.psk_type; b ← write_opaque_v b p.psk_nonce; ok b

unfoldable pub decode_pre_shared_key_id : Cursor → Result (PreSharedKeyId × Cursor)
decode_pre_shared_key_id c = do
  (psk_type, c) ← PskType.decode_psk_type c
  (psk_nonce, c) ← read_opaque_v c
  ok (record { psk_type = psk_type; psk_nonce = psk_nonce }, c)

-- The fields hold what their Go types can hold.
pub record InRange (p : PreSharedKeyId) : Type 0 where
  pub psk_type : PskType.InRange p.psk_type
  pub psk_nonce : All IsByte p.psk_nonce

-- What `marshal` writes for a `PreSharedKeyId` in range is appended to the buffer, and is decoded to the same
-- value whatever follows it. Bytes that decode to a `PreSharedKeyId` are those that `marshal` writes for it,
-- at least one, and the value is in range. Decoding any bytes ends.
pub pre_shared_key_id-IsStrict : IsStrict InRange marshal decode_pre_shared_key_id
unfolding marshal decode_pre_shared_key_id
pre_shared_key_id-IsStrict =
    first_field (λ p. p.psk_type) PskType.psk_type-IsStrict (λ p fits. fits.psk_type)
      λ psk_type h0.
        field (λ p. p.psk_nonce) opaque-IsFormat (λ p fits. fits.0.psk_nonce)
          λ psk_nonce h1.
            done (record { psk_type = psk_type; psk_nonce = psk_nonce })
              ((record { psk_type = h0; psk_nonce = h1 }, refl), refl) (λ p fits. ground arith)
