-- ===== src/KeySchedule/ResumptionPsk.antt =====
-- mls/keyschedule/psk.go: the fields of a `PreSharedKeyID` for a resumption PSK, and their wire form.
use mls_go.Prelude.{ℕ, ◌^◌, ◌<◌, refl, All, Result, ok, ◌>>=◌, arith}
use mls_go.Syntax.Varint.{IsByte, Bytes}
use mls_go.Syntax.Builder.{Builder, write_opaque_v, write_uint8, write_uint64}
use mls_go.Syntax.Cursor.{Cursor, read_opaque_v, read_uint8, read_uint64}
use mls_go.Syntax.Format.{IsStrict}
use mls_go.Syntax.Format.Opaque.{opaque-IsFormat}
use mls_go.Syntax.Format.Scalars.{uint64-IsFormat, uint8-IsStrict}
use mls_go.Syntax.Format.Struct.{first_field, field, done}

pub record ResumptionPsk : Type 0 where
  pub usage : ℕ
  pub psk_group_id : Bytes
  pub psk_epoch : ℕ

unfoldable pub marshal : Builder → ResumptionPsk → Result Builder
marshal b r = do
  let b = write_uint8 b r.usage
  b ← write_opaque_v b r.psk_group_id
  let b = write_uint64 b r.psk_epoch
  ok b

unfoldable pub decode_resumption_psk : Cursor → Result (ResumptionPsk × Cursor)
decode_resumption_psk c = do
  (usage, c) ← read_uint8 c
  (psk_group_id, c) ← read_opaque_v c
  (psk_epoch, c) ← read_uint64 c
  ok (record { usage = usage; psk_group_id = psk_group_id; psk_epoch = psk_epoch }, c)

-- The fields hold what their Go types can hold.
pub record InRange (r : ResumptionPsk) : Type 0 where
  pub usage : r.usage < 2 ^ 8
  pub psk_group_id : All IsByte r.psk_group_id
  pub psk_epoch : r.psk_epoch < 2 ^ 64

-- What `marshal` writes for a `ResumptionPsk` in range is appended to the buffer, and is decoded to the same
-- value whatever follows it. Bytes that decode to a `ResumptionPsk` are those that `marshal` writes for it,
-- at least one, and the value is in range. Decoding any bytes ends.
pub resumption_psk-IsStrict : IsStrict InRange marshal decode_resumption_psk
unfolding marshal decode_resumption_psk
resumption_psk-IsStrict =
    first_field (λ r. r.usage) uint8-IsStrict (λ r fits. fits.usage)
      λ usage h0.
        field (λ r. r.psk_group_id) opaque-IsFormat (λ r fits. fits.0.psk_group_id)
          λ psk_group_id h1.
            field (λ r. r.psk_epoch) uint64-IsFormat (λ r fits. fits.0.0.psk_epoch)
              λ psk_epoch h2.
                done (record { usage = usage; psk_group_id = psk_group_id; psk_epoch = psk_epoch })
                  (((record { usage = h0; psk_group_id = h1; psk_epoch = h2 }, refl), refl), refl)
                  (λ r fits. ground arith)
