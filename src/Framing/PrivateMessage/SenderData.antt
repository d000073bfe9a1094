-- ===== src/Framing/PrivateMessage/SenderData.antt =====
-- mls/framing/private.go, `senderData`: what identifies the sender's key, encrypted beside the content.
use mls_go.Prelude.{ℕ, ◌^◌, ◌<◌, ◌≡◌, refl, All, length, Result, ok, ◌>>=◌, arith}
use mls_go.Syntax.Varint.{IsByte, Bytes}
use mls_go.Syntax.Builder.{Builder, write_uint32, write_raw}
use mls_go.Syntax.Cursor.{Cursor, read_uint32, read_raw}
use mls_go.Syntax.Format.{IsStrict}
use mls_go.Syntax.Format.Scalars.{uint32-IsFormat, uint32-IsStrict}
use mls_go.Syntax.Format.Struct.{first_field, field, done}
use mls_go.Syntax.Format.Raw.{raw-IsFormat}

pub record SenderData : Type 0 where
  pub leaf_index : ℕ
  pub generation : ℕ
  -- an array of 4 bytes
  pub reuse_guard : Bytes

unfoldable pub marshal : Builder → SenderData → Result Builder
marshal b sd = do
  let b = write_uint32 b sd.leaf_index
  let b = write_uint32 b sd.generation
  ok (write_raw b sd.reuse_guard)

unfoldable pub decode_sender_data : Cursor → Result (SenderData × Cursor)
decode_sender_data c = do
  (leaf_index, c) ← read_uint32 c
  (generation, c) ← read_uint32 c
  (g, c) ← read_raw c 4
  ok (record { leaf_index = leaf_index; generation = generation; reuse_guard = g }, c)

pub record InRange (sd : SenderData) : Type 0 where
  pub leaf_index : sd.leaf_index < 2 ^ 32
  pub generation : sd.generation < 2 ^ 32
  pub reuse_guard : (length sd.reuse_guard ≡ 4) × All IsByte sd.reuse_guard

-- What `marshal` writes for a `SenderData` in range is appended to the buffer, and is decoded to the same
-- value whatever follows it. Bytes that decode to a `SenderData` are those that `marshal` writes for it,
-- at least one, and the value is in range. Decoding any bytes ends.
pub sender_data-IsStrict : IsStrict InRange marshal decode_sender_data
unfolding marshal decode_sender_data
sender_data-IsStrict =
    first_field (λ sd. sd.leaf_index) uint32-IsStrict (λ sd fits. fits.leaf_index)
      λ leaf_index h0.
        field (λ sd. sd.generation) uint32-IsFormat (λ sd fits. fits.0.generation)
          λ generation h1.
            field (λ sd. sd.reuse_guard) (raw-IsFormat 4) (λ sd fits. fits.0.0.reuse_guard)
              λ reuse_guard h2.
                done
                  (record {
                    leaf_index = leaf_index;
                    generation = generation;
                    reuse_guard = reuse_guard;
                  })
                  (
                    ((record { leaf_index = h0; generation = h1; reuse_guard = h2 }, refl), refl),
                    refl,
                  )
                  (λ sd fits. ground arith)
