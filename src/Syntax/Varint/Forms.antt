-- ===== src/Syntax/Varint/Forms.antt =====
-- The three forms of a varint in plain arithmetic: what `write_varint` writes in each, and what
-- `read_varint` makes of a first byte.
use mls_go.Prelude.{
  ℕ, ◌+◌, ◌*◌, ◌/◌, ◌%◌, ◌^◌, ◌≤◌, ◌<◌, ◌≡◌, not, [], ◌∷◌, arith, ◌==◌, if◌then◌else◌, Result, ok,
  err, non_minimal_varint,
}
use mls_go.Prelude.Bits.{bit_or_disjoint, bit_and_mask}
use mls_go.Syntax.Varint.{Bytes, write_varint, varint_loop, written_length, read_varint}
use Prim.Native.Nat.{bit_and, bit_or}

pub low_six : (b : ℕ) → bit_and b 0x3f ≡ b % 2 ^ 6
low_six b = bit_and_mask 6 b

tag_0x40 : (b : ℕ) → b < 64 → bit_or 0x40 b ≡ b + 64
tag_0x40 b h = omega (arith, bit_or_disjoint 6 1 b (omega arith))

tag_0x80 : (b : ℕ) → b < 64 → bit_or 0x80 b ≡ b + 128
tag_0x80 b h = omega (arith, bit_or_disjoint 6 2 b (omega arith))

-- One round of the loop of `read_varint`, where nothing is shifted out.
loop_round : (v b : ℕ) → v < 2 ^ 56 → b < 256 → bit_or (v * 2 ^ 8 % 2 ^ 64) b ≡ v * 256 + b
loop_round v b fits h = ground (arith, bit_or_disjoint 8 v b)

loop_one : (v b : ℕ) → v < 2 ^ 56 → b < 256 → varint_loop v (b ∷ []) ≡ v * 256 + b
unfolding varint_loop
loop_one v b fits h = loop_round v b fits h

loop_three :
    (v b c d : ℕ)
    → v < 64
    → b < 256
    → c < 256
    → d < 256
    → varint_loop v (b ∷ c ∷ d ∷ []) ≡ v * 2 ^ 24 + b * 2 ^ 16 + c * 2 ^ 8 + d
unfolding varint_loop
loop_three v b c d hv hb hc hd = rw (loop_round v b (omega arith) hb) (
    rw (loop_round (v * 256 + b) c (omega arith) hc)
      (omega (arith, loop_round ((v * 256 + b) * 256 + c) d (omega arith) hd)))

-- What the last test of `read_varint` leaves.
abbrev pub accept : ℕ → ℕ → Result (ℕ × ℕ)
accept v len =
    if not (written_length (write_varint v) == len) then err non_minimal_varint else ok (v, len)

pub read_short_form : (b : ℕ) (rest : Bytes) → b < 64 → read_varint (b ∷ rest) ≡ ok (b, 1)
unfolding read_varint write_varint
read_short_form b rest h = rw (low_six, prefix) (ground arith)
  where
    prefix : b / 2 ^ 6 ≡ 0
    prefix = omega arith

pub read_two :
    (a b : ℕ) (rest : Bytes)
    → a / 64 ≡ 1
    → b < 256
    → read_varint (a ∷ b ∷ rest) ≡ accept (a % 64 * 256 + b) 2
unfolding read_varint
read_two a b rest h hb = rw (low_six, h) (rw (loop_one (a % 64) b (omega arith) hb) (ground arith))

pub read_four :
    (a b c d : ℕ) (rest : Bytes)
    → a / 64 ≡ 2
    → b < 256
    → c < 256
    → d < 256
    → read_varint (a ∷ b ∷ c ∷ d ∷ rest) ≡ accept (a % 64 * 2 ^ 24 + b * 2 ^ 16 + c * 2 ^ 8 + d) 4
unfolding read_varint
read_four a b c d rest h hb hc hd =
    rw (low_six, h) (rw (loop_three (a % 64) b c d (omega arith) hb hc hd) (ground arith))

pub written_two :
    (v : ℕ) → 2 ^ 6 ≤ v → v < 2 ^ 14 → write_varint v ≡ ok ((v / 256 + 64) ∷ v % 256 ∷ [])
unfolding write_varint
written_two v lo hi = ground (arith, tag_0x40 (v / 2 ^ 8 % 256))

pub written_four :
    (v : ℕ)
    → 2 ^ 14 ≤ v
    → v < 2 ^ 30
    → write_varint v ≡ ok ((v / 2 ^ 24 + 128) ∷ v / 2 ^ 16 % 256 ∷ v / 2 ^ 8 % 256 ∷ v % 256 ∷ [])
unfolding write_varint
written_four v lo hi = ground (arith, tag_0x80 (v / 2 ^ 24 % 256))

pub written_one : (v : ℕ) → v < 2 ^ 6 → write_varint v ≡ ok (v ∷ [])
unfolding write_varint
written_one v h = ground arith
