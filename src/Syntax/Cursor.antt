-- ===== src/Syntax/Cursor.antt =====
-- mls/syntax/codec.go, `Cursor`: the bytes that are not yet read, `buf` of the source. A method
-- returns its result and the new cursor; every caller in the repository abandons a cursor after an
-- error, so a failed read returns no cursor.
use mls_go.Prelude.{
  ℕ, ◌+◌, ◌*◌, ◌^◌, [], ◌∷◌, Bool, ltb, length, take, drop, if◌then◌else◌, Result, ok, err, ◌>>=◌,
  short_read, ◌==◌,
}
use mls_go.Syntax.Varint
use mls_go.Syntax.Varint.{Bytes}

abbrev pub Cursor : Type 0
Cursor = Bytes

abbrev pub new_cursor : Bytes → Cursor
new_cursor b = b

abbrev pub remaining : Cursor → ℕ
remaining c = length c

abbrev pub empty : Cursor → Bool
empty c = length c == 0

-- The lengths that callers pass are never negative.
unfoldable pub take_bytes : Cursor → ℕ → Result (Bytes × Cursor)
take_bytes c n = if ltb (length c) n then err short_read else ok (take n c, drop n c)

-- The number that big-endian bytes stand for: p[0], and binary.BigEndian.Uint16 to Uint64.
unfoldable pub from_be : ℕ → Bytes → ℕ
from_be v [] = v
from_be v (b ∷ bs) = from_be (v * 2 ^ 8 + b) bs

unfoldable pub read_uint8 : Cursor → Result (ℕ × Cursor)
unfolding take_bytes from_be
read_uint8 c = do (p, c) ← take_bytes c 1; ok (from_be 0 p, c)

unfoldable pub read_uint16 : Cursor → Result (ℕ × Cursor)
unfolding take_bytes from_be
read_uint16 c = do (p, c) ← take_bytes c 2; ok (from_be 0 p, c)

unfoldable pub read_uint32 : Cursor → Result (ℕ × Cursor)
unfolding take_bytes from_be
read_uint32 c = do (p, c) ← take_bytes c 4; ok (from_be 0 p, c)

unfoldable pub read_uint64 : Cursor → Result (ℕ × Cursor)
unfolding take_bytes from_be
read_uint64 c = do (p, c) ← take_bytes c 8; ok (from_be 0 p, c)

abbrev pub read_raw : Cursor → ℕ → Result (Bytes × Cursor)
read_raw c n = take_bytes c n

unfoldable pub read_varint : Cursor → Result (ℕ × Cursor)
read_varint c = do (v, n) ← Varint.read_varint c; ok (v, drop n c)

abbrev pub rest : Cursor → Bytes
rest c = c

unfoldable pub read_opaque_v : Cursor → Result (Bytes × Cursor)
unfolding read_varint take_bytes
read_opaque_v c = do (n, c) ← read_varint c; take_bytes c n
