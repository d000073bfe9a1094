-- ===== src/Tree/Lifetime.antt =====
-- mls/tree/leaf.go, `Lifetime`: the validity window of a key package, and its wire form.
use mls_go.Prelude.{ℕ, ◌^◌, ◌<◌, refl, Result, ok, ◌>>=◌, arith}
use mls_go.Syntax.Builder.{Builder, write_uint64}
use mls_go.Syntax.Cursor.{Cursor, read_uint64}
use mls_go.Syntax.Format.{IsStrict}
use mls_go.Syntax.Format.Scalars.{uint64-IsFormat, uint64-IsStrict}
use mls_go.Syntax.Format.Struct.{first_field, field, done}

pub record Lifetime : Type 0 where
  pub not_before : ℕ
  pub not_after : ℕ

unfoldable pub marshal : Builder → Lifetime → Result Builder
marshal b l = do let b = write_uint64 b l.not_before; let b = write_uint64 b l.not_after; ok b

unfoldable pub decode_lifetime : Cursor → Result (Lifetime × Cursor)
decode_lifetime c = do
  (not_before, c) ← read_uint64 c
  (not_after, c) ← read_uint64 c
  ok (record { not_before = not_before; not_after = not_after }, c)

-- The fields hold what their Go types can hold.
pub record InRange (l : Lifetime) : Type 0 where
  pub not_before : l.not_before < 2 ^ 64
  pub not_after : l.not_after < 2 ^ 64

-- What `marshal` writes for a `Lifetime` in range is appended to the buffer, and is decoded to the same
-- value whatever follows it. Bytes that decode to a `Lifetime` are those that `marshal` writes for it,
-- at least one, and the value is in range. Decoding any bytes ends.
pub lifetime-IsStrict : IsStrict InRange marshal decode_lifetime
unfolding marshal decode_lifetime
lifetime-IsStrict =
    first_field (λ l. l.not_before) uint64-IsStrict (λ l fits. fits.not_before)
      λ not_before h0.
        field (λ l. l.not_after) uint64-IsFormat (λ l fits. fits.0.not_after)
          λ not_after h1.
            done (record { not_before = not_before; not_after = not_after })
              ((record { not_before = h0; not_after = h1 }, refl), refl) (λ l fits. ground arith)
