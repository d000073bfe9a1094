-- ===== src/Syntax/Varint/RoundTrip.antt =====
-- Every varint that is written is read back.
use mls_go.Prelude.{
  ℕ, ◌+◌, ◌*◌, ◌/◌, ◌%◌, ◌^◌, ◌≤◌, ◌<◌, ◌≡◌, ◌⊎◌, inl, inr, [], ◌∷◌, ◌++◌, All, length, arith, ok,
  err, varint_too_large,
}
use mls_go.Syntax.Varint.{IsByte, Bytes, write_varint, written_length, read_varint}
use mls_go.Syntax.Varint.Forms.{
  read_short_form, read_two, read_four, written_one, written_two, written_four,
}

-- Writing fails exactly above the largest length of the format.
pub write_varint_refused : (v : ℕ) → 2 ^ 30 ≤ v → write_varint v ≡ err varint_too_large
unfolding write_varint
write_varint_refused v h = ground arith

-- The four ranges of a number, by the form that it is written in.
varint_ranges :
    (v : ℕ)
    → (v < 2 ^ 6) ⊎ ((2 ^ 6 ≤ v) × (v < 2 ^ 14)) ⊎ ((2 ^ 14 ≤ v) × (v < 2 ^ 30)) ⊎ (2 ^ 30 ≤ v)
varint_ranges v = grind arith

-- Every number below 2^30 is written by WriteVarint, in one byte or more, and ReadVarint reads
-- it back, with the number of bytes it took, whatever bytes follow.
pub read_varint-write_varint :
    (v : ℕ) (rest : Bytes)
    → v < 2 ^ 30
    → (bs : Bytes) × (write_varint v ≡ ok bs)
      × (read_varint (bs ++ rest) ≡ ok (v, length bs))
      × All IsByte bs
      × (0 < length bs)
read_varint-write_varint v rest h = elim (varint_ranges v) [
  | inl a ↦ (v ∷ [], written_one v a, read_short_form v rest a, omega arith, omega arith)
  | inr (inl (a, b)) ↦ (
    _,
    written_two v a b,
    rw (read_two (v / 256 + 64) (v % 256) rest (omega arith) (omega arith), value_two v b)
        (unfold written_length in rw (written_two v a b)),
    omega arith,
    omega arith,
  )
  | inr (inr (inl (a, b))) ↦ (
    _,
    written_four v a b,
    rw
        (
          read_four (v / 2 ^ 24 + 128) (v / 2 ^ 16 % 256) (v / 2 ^ 8 % 256) (v % 256) rest
              (omega arith) (omega arith) (omega arith) (omega arith),
          value_four v b,
        )
        (unfold written_length in rw (written_four v a b)),
    omega arith,
    omega arith,
  )
  | inr (inr (inr c)) ↦ absurd (omega arith)
]
  where
    value_two : (v : ℕ) → v < 2 ^ 14 → (v / 256 + 64) % 64 * 256 + v % 256 ≡ v
    value_two v h = omega arith

    value_four :
        (v : ℕ)
        → v < 2 ^ 30
        → (v / 2 ^ 24 + 128) % 64 * 2 ^ 24
            + v / 2 ^ 16 % 256 * 2 ^ 16
            + v / 2 ^ 8 % 256 * 2 ^ 8
            + v % 256
          ≡ v
    value_four v h = omega arith
