-- ===== src/Syntax/Format.antt =====
-- The interface between the wire encoding and the packages that use it. A format is a pair of an
-- encoder into a `Builder` and a decoder from a `Cursor` that undo one another.
mod Tests
pub mod Struct
pub mod Union
pub mod Taken
pub mod Scalars
pub mod Opaque
pub mod Vector
pub mod Optional
pub mod Message
pub mod Prefix
pub mod Raw
use mls_go.Prelude.{◌≡◌, ◌<◌, ◌++◌, All, length, ◌≢◌, Result, ok, err, out_of_fuel}
use mls_go.Syntax.Varint.{IsByte, Bytes}
use mls_go.Syntax.Builder.{Builder}
use mls_go.Syntax.Cursor.{Cursor}

abbrev pub Encoder : Type 0 → Type 0
Encoder T = Builder → T → Result Builder

abbrev pub Decoder : Type 0 → Type 0
Decoder T = Cursor → Result (T × Cursor)

-- `P` holds of the values that the Go type can hold in the shape that the decoder builds.
pub record IsFormat {T : Type 0} (P : T → Type 0) (enc : Encoder T) (dec : Decoder T) : Type 0 where
  -- What is written is appended, and is read back whatever follows it.
  pub written :
      (b : Builder) (x : T) (b' : Builder)
      → P x
      → enc b x ≡ ok b'
      → (s : Bytes) × (b' ≡ b ++ s)
        × All IsByte s
        × ((more : Cursor) → dec (s ++ more) ≡ ok (x, more))
  -- What is read is what writing the value again produces, so no value has two encodings.
  pub canonical :
      (c : Cursor) (x : T) (more : Cursor)
      → All IsByte c
      → dec c ≡ ok (x, more)
      → (s : Bytes) × P x × (c ≡ s ++ more) × ((b : Builder) → enc b x ≡ ok (b ++ s))
  -- Reading ends: no loop of the decoder is left with rounds to go.
  pub total : (c : Cursor) → All IsByte c → dec c ≢ err out_of_fuel

-- Whatever is read takes a byte at least.
abbrev pub Progress : {T : Type 0} → Decoder T → Type 0
Progress {T} dec =
    (c : Cursor) (x : T) (more : Cursor)
    → All IsByte c
    → dec c ≡ ok (x, more)
    → length more < length c

-- A format whose values take a byte at least, so that a vector may hold them.
pub record IsStrict {T : Type 0} (P : T → Type 0) (enc : Encoder T) (dec : Decoder T) : Type 0 where
  pub format : IsFormat P enc dec
  pub progress : Progress dec
