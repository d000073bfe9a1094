-- ===== src/KeySchedule/PskType.antt =====
-- mls/keyschedule/psk.go: the type of a `PreSharedKeyID` and the fields that depend on it.
use mls_go.Prelude.{
  ℕ, ◌^◌, ◌<◌, ◌≡◌, refl, sym, [], All, Result, ok, err, ◌>>=◌, if◌then◌else◌, ◌==◌,
}
use mls_go.Syntax.Varint.{IsByte, Bytes}
use mls_go.Syntax.Builder.{Builder, write_opaque_v, write_uint8}
use mls_go.Syntax.Cursor.{Cursor, read_opaque_v, read_uint8}
use mls_go.Syntax.Format.{IsFormat, IsStrict}
use mls_go.Syntax.Format.Opaque.{opaque-IsFormat}
use mls_go.Syntax.Format.Scalars.{uint8-IsStrict}
use mls_go.Syntax.Format.Struct.{first_field, refused, restrict}
use mls_go.Syntax.Format.Union.{branch, case}
use mls_go.Prelude.{subst, invalid_psk_type}
use mls_go.KeySchedule.ResumptionPsk
use mls_go.KeySchedule.ResumptionPsk.{ResumptionPsk}

pub record PskType : Type 0 where
  pub psk_type : ℕ
  pub psk_id : Bytes
  pub usage : ℕ
  pub psk_group_id : Bytes
  pub psk_epoch : ℕ

abbrev of_external : ℕ → Bytes → PskType
of_external t a = record { psk_type = t; psk_id = a; usage = 0; psk_group_id = []; psk_epoch = 0 }

abbrev of_resumption : ℕ → ResumptionPsk → PskType
of_resumption t a = record {
  psk_type = t;
  psk_id = [];
  usage = a.usage;
  psk_group_id = a.psk_group_id;
  psk_epoch = a.psk_epoch;
}

-- The `switch` on the tag.
marshal_body : Builder → PskType → Result Builder
marshal_body b p =
    if p.psk_type == 1
    then write_opaque_v b p.psk_id
    else if p.psk_type == 2
    then ResumptionPsk.marshal b
        (record { usage = p.usage; psk_group_id = p.psk_group_id; psk_epoch = p.psk_epoch })
    else err invalid_psk_type

decode_body : ℕ → Cursor → Result (PskType × Cursor)
decode_body t c =
    if t == 1
    then (do (a, c) ← read_opaque_v c; ok (of_external t a, c))
    else if t == 2
    then (do (a, c) ← ResumptionPsk.decode_resumption_psk c; ok (of_resumption t a, c))
    else err invalid_psk_type

unfoldable pub marshal : Builder → PskType → Result Builder
unfolding marshal_body
marshal b p = do let b = write_uint8 b p.psk_type; marshal_body b p

unfoldable pub decode_psk_type : Cursor → Result (PskType × Cursor)
unfolding decode_body
decode_psk_type c = do (t, c) ← read_uint8 c; decode_body t c

-- What the tag says of the other fields; no value with an unknown tag is written.
abbrev Fits : PskType → ℕ → Type 0
Fits p k =
    if k == 1
    then ((a : Bytes) × All IsByte a × (p ≡ of_external 1 a))
    else if k == 2
    then ((a : ResumptionPsk) × ResumptionPsk.InRange a × (p ≡ of_resumption 2 a))
    else Unit

pub record InRange (p : PskType) : Type 0 where
  pub tag_fits : p.psk_type < 2 ^ 8
  pub body : Fits p p.psk_type

body-IsFormat :
    (t : ℕ) → IsFormat (λ p. Fits p p.psk_type × (p.psk_type ≡ t)) marshal_body (decode_body t)
unfolding marshal_body decode_body
body-IsFormat t =
    branch (λ p. p.psk_type) t 1
      (case (λ p. p.psk_type) Fits 1 of_external opaque-IsFormat (λ p h. h) (λ a q. (a, q, refl))
        (λ a. refl) (λ b a. refl) t)
      λ _.
        branch (λ p. p.psk_type) t 2
          (case (λ p. p.psk_type) Fits 2 of_resumption ResumptionPsk.resumption_psk-IsStrict.format
            (λ p h. h) (λ a q. (a, q, refl)) (λ a. refl) (λ b a. refl) t)
          λ _. refused invalid_psk_type invalid_psk_type (λ q. cc)

-- What `marshal` writes for a `PskType` in range is appended to the buffer, and is decoded to the same
-- value whatever follows it. Bytes that decode to a `PskType` are those that `marshal` writes for it,
-- at least one, and the value is in range. Decoding any bytes ends.
pub psk_type-IsStrict : IsStrict InRange marshal decode_psk_type
unfolding marshal decode_psk_type
psk_type-IsStrict =
    first_field (λ p. p.psk_type) uint8-IsStrict (λ p h. h.tag_fits)
      λ t small.
        restrict (body-IsFormat t) (λ p h. (h.0.body, h.1))
          (λ p h. (record { tag_fits = subst (λ u. u < 2 ^ 8) (sym h.1) small; body = h.0 }, h.1))
