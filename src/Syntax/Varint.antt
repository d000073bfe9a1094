-- ===== src/Syntax/Varint.antt =====
-- mls/syntax/varint.go: QUIC-style variable-length integers and opaque<V> byte vectors.
-- A byte slice is a list of numbers; a byte is below 256.
pub mod Forms
pub mod RoundTrip
pub mod Canonical
mod Tests
use mls_go.Prelude.{
  ℕ, zero, suc, ◌+◌, ◌-◌, ◌*◌, ◌/◌, ◌%◌, ◌^◌, ◌<◌, Bool, not, List, [], ◌∷◌, ◌++◌, All, length,
  take, drop, ltb, leb, ◌==◌, if◌then◌else◌, Result, ok, err, ◌>>=◌, varint_too_large, empty_varint,
  eight_byte_varint, short_varint, non_minimal_varint, short_opaque,
}
use Prim.Native.Nat.{bit_and, bit_or}

abbrev pub IsByte : ℕ → Type 0
IsByte b = b < 256

abbrev pub Bytes : Type 0
Bytes = List ℕ

abbrev pub max_varint : ℕ
max_varint = 2 ^ 30 - 1

-- `byte(x)` is `x % 256`, and `x >> k` is `x / 2 ^ k`.
unfoldable pub write_varint : ℕ → Result Bytes
write_varint v =
    if ltb v (2 ^ 6)
    then ok (v % 256 ∷ [])
    else if ltb v (2 ^ 14)
    then ok (bit_or 0x40 (v / 2 ^ 8 % 256) ∷ v % 256 ∷ [])
    else if leb v max_varint
    then ok (bit_or 0x80 (v / 2 ^ 24 % 256) ∷ v / 2 ^ 16 % 256 ∷ v / 2 ^ 8 % 256 ∷ v % 256 ∷ [])
    else err varint_too_large

-- The loop `v = (v << 8) | uint64(b[i])` over the bytes that `i` has not reached.
unfoldable pub varint_loop : ℕ → Bytes → ℕ
varint_loop v [] = v
varint_loop v (b ∷ bs) = varint_loop (bit_or (v * 2 ^ 8 % 2 ^ 64) b) bs

-- `len(canon)`, where a failed `WriteVarint` returns a nil slice.
unfoldable pub written_length : Result Bytes → ℕ
written_length (ok bs) = length bs
written_length (err e) = 0

unfoldable pub read_varint : Bytes → Result (ℕ × ℕ)
unfolding varint_loop written_length
read_varint [] = err empty_varint
read_varint (b0 ∷ rest) =
    let prefix = b0 / 2 ^ 6 in
    let len = 2 ^ prefix in
    let v = varint_loop (bit_and b0 0x3f) (take (len - 1) rest) in
    if prefix == 3
    then err eight_byte_varint
    else if ltb (length (b0 ∷ rest)) len
    then err short_varint
    else if not (written_length (write_varint v) == len)
    then err non_minimal_varint
    else ok (v, len)

unfoldable pub write_opaque_v : Bytes → Result Bytes
write_opaque_v b = do hdr ← write_varint (length b); ok (hdr ++ b)

unfoldable pub read_opaque_v : Bytes → Result (Bytes × ℕ)
read_opaque_v b = do
  (n, hdr_len) ← read_varint b
  let total = hdr_len + n
  if ltb (length b) total then err short_opaque else ok (take n (drop hdr_len b), total)
