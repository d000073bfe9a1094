-- ===== src/Syntax/Builder.antt =====
-- mls/syntax/codec.go, `Builder`: an append-only buffer, `buf` of the source. A method that writes
-- returns the new buffer.
use mls_go.Prelude.{ℕ, ◌/◌, ◌%◌, ◌^◌, ◌++◌, [], ◌∷◌, length, Result, ok, ◌>>=◌}
use mls_go.Syntax.Varint
use mls_go.Syntax.Varint.{Bytes}

abbrev pub Builder : Type 0
Builder = Bytes

abbrev pub new_builder : Builder
new_builder = []

unfoldable pub write_uint8 : Builder → ℕ → Builder
write_uint8 b v = b ++ v ∷ []

-- binary.BigEndian
unfoldable pub be16 : ℕ → Bytes
be16 v = v / 2 ^ 8 % 256 ∷ v % 256 ∷ []

unfoldable pub be32 : ℕ → Bytes
be32 v = v / 2 ^ 24 % 256 ∷ v / 2 ^ 16 % 256 ∷ v / 2 ^ 8 % 256 ∷ v % 256 ∷ []

unfoldable pub be64 : ℕ → Bytes
unfolding be32
be64 v = be32 (v / 2 ^ 32) ++ be32 v

unfoldable pub write_uint16 : Builder → ℕ → Builder
unfolding be16
write_uint16 b v = b ++ be16 v

unfoldable pub write_uint32 : Builder → ℕ → Builder
unfolding be32
write_uint32 b v = b ++ be32 v

unfoldable pub write_uint64 : Builder → ℕ → Builder
unfolding be64
write_uint64 b v = b ++ be64 v

unfoldable pub write_raw : Builder → Bytes → Builder
write_raw b p = b ++ p

unfoldable pub write_varint : Builder → ℕ → Result Builder
write_varint b v = do enc ← Varint.write_varint v; ok (b ++ enc)

unfoldable pub write_opaque_v : Builder → Bytes → Result Builder
unfolding write_varint
write_opaque_v b p = do b ← write_varint b (length p); ok (b ++ p)

-- A value that marshals by itself and is then written raw: `raw, err := x.MarshalMLS()`, and
-- `b.WriteRaw(raw)`.
abbrev pub write_marshalled : Builder → Result Bytes → Result Builder
write_marshalled b m = do raw ← m; ok (write_raw b raw)
