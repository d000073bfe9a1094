-- ===== src/Syntax/Varint/Tests.antt =====
-- Varints at concrete numbers.
use mls_go.Prelude.{ℕ, ◌<◌, ◌≤◌, ◌^◌, ◌≡◌, refl, [], ◌∷◌, ◌++◌, All, length, take, ok, arith}
use mls_go.Syntax.Varint.{Bytes, IsByte, write_varint, read_varint}
use mls_go.Syntax.Varint.RoundTrip.{read_varint-write_varint}
use mls_go.Syntax.Varint.Canonical.{read_varint_canonical}

-- The four-byte example of RFC 9000.
abbrev sample : ℕ
sample = 494878333

abbrev sample_bytes : Bytes
sample_bytes = 0x9d ∷ 0x7f ∷ 0x3e ∷ 0x7d ∷ []

write_sample : write_varint sample ≡ ok sample_bytes
unfolding write_varint
write_sample = refl

read_varint-write_varint_example :
    (bs : Bytes) × (write_varint sample ≡ ok bs)
    × (read_varint (bs ++ 1 ∷ []) ≡ ok (sample, length bs))
    × All IsByte bs
    × (0 < length bs)
read_varint-write_varint_example = read_varint-write_varint sample (1 ∷ []) (omega arith)

read_varint_canonical_example :
    (write_varint sample ≡ ok (take 4 sample_bytes))
    × (4 ≤ length sample_bytes)
    × (0 < 4)
    × (sample < 2 ^ 30)
unfolding read_varint write_varint
read_varint_canonical_example = read_varint_canonical sample_bytes sample 4 (omega arith) refl
