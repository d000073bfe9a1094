-- ===== src/Syntax/Format/Scalars.antt =====
-- The formats of the big-endian integers.
use mls_go.Prelude.{
  ℕ, suc, ◌+◌, ◌*◌, ◌/◌, ◌%◌, ◌^◌, ◌<◌, ◌≡◌, refl, ap, [], ◌∷◌, ◌++◌, All, All-append_left, length,
  length-append, ok, ◌>>=◌, >>=-eq-ok, arith, subst,
}
use mls_go.Syntax.Varint.{IsByte, Bytes}
use mls_go.Syntax.Builder.{write_uint8, write_uint16, write_uint32, write_uint64, be16, be32, be64}
use mls_go.Syntax.Cursor.{
  Cursor, take_bytes, from_be, read_uint8, read_uint16, read_uint32, read_uint64,
}
use mls_go.Syntax.Format.{IsFormat, IsStrict}
use mls_go.Syntax.Format.Taken.{take_bytes-append, take_bytes-ne-out_of_fuel, take_bytes-eq-ok}
use mls_go.Syntax.Format.Struct.{same_encoder}

-- An integer of `k` bytes: `to` writes them, and `from_be` reads them back.
module _ (k bound : ℕ) (to : ℕ → Bytes) (length-to : (v : ℕ) → length (to v) ≡ k)
    (to-IsByte : (v : ℕ) → All IsByte (to v)) (from-to : (v : ℕ) → v < bound → from_be 0 (to v) ≡ v)
    (to-from : (p : Bytes)
      → All IsByte p
      → length p ≡ k
      → (to (from_be 0 p) ≡ p) × (from_be 0 p < bound)) where
  big_endian :
      IsFormat
        (λ v. v < bound)
        (λ b v. ok (b ++ to v))
        (λ c. take_bytes c k >>= λ (p, c'). ok (from_be 0 p, c'))
  big_endian = record {
    written = λ b v b' h e. (
      to v,
      cc,
      to-IsByte v,
      λ more. rw (take_bytes-append (to v) more k (length-to v), from-to v h),
    );
    canonical = λ c v more h e.
        let ((p, c'), e₁, e₂) = >>=-eq-ok (take_bytes c k) _ e in
        let (w, l) = take_bytes-eq-ok c p c' k e₁ in
        let (t, f) = to-from p (All-append_left IsByte p c' (subst (All IsByte) w h)) l in
        let ev : from_be 0 p ≡ v = cc e₂ in
        let em : c' ≡ more = cc e₂ in
        (p, subst (λ u. u < bound) ev f, rw (w, em), λ b. rw (← ev, t));
    total = λ c h e. ground (arith, take_bytes-ne-out_of_fuel c k);
  }

pub uint8-IsFormat : IsFormat (λ v. v < 2 ^ 8) (λ b v. ok (write_uint8 b v)) read_uint8
unfolding write_uint8 read_uint8
uint8-IsFormat =
    same_encoder
      (big_endian 1 (2 ^ 8) (λ v. v % 256 ∷ []) (λ v. refl) (λ v. omega arith) from-to to-from)
      (λ b v h. ap (λ t. ok (b ++ t ∷ [])) (omega arith))
  where
    from-to : (v : ℕ) → v < 2 ^ 8 → from_be 0 (v % 256 ∷ []) ≡ v
    from-to v h = omega arith

    to-from :
        (p : Bytes)
        → All IsByte p
        → length p ≡ 1
        → (from_be 0 p % 256 ∷ [] ≡ p) × (from_be 0 p < 2 ^ 8)
    to-from (b ∷ []) h l = ground arith
    to-from [] h l = absurd (omega arith)
    to-from (a ∷ b ∷ p) h l = absurd (omega arith)

be16-from_be :
    (p : Bytes) → All IsByte p → length p ≡ 2 → (be16 (from_be 0 p) ≡ p) × (from_be 0 p < 2 ^ 16)
unfolding be16 from_be
be16-from_be (a ∷ b ∷ []) h l = ground arith
be16-from_be (a ∷ b ∷ c ∷ p) h l = absurd (omega arith)
be16-from_be [] h l = absurd (omega arith)
be16-from_be (a ∷ []) h l = absurd (omega arith)

pub be32-from_be :
    (p : Bytes) → All IsByte p → length p ≡ 4 → (be32 (from_be 0 p) ≡ p) × (from_be 0 p < 2 ^ 32)
unfolding be32 from_be
be32-from_be (a ∷ b ∷ c ∷ d ∷ []) h l = ground arith
be32-from_be (a ∷ b ∷ c ∷ d ∷ e ∷ p) h l = absurd (omega arith)
be32-from_be [] h l = absurd (omega arith)
be32-from_be (a ∷ []) h l = absurd (omega arith)
be32-from_be (a ∷ b ∷ []) h l = absurd (omega arith)
be32-from_be (a ∷ b ∷ c ∷ []) h l = absurd (omega arith)

from_be-be32 : (v : ℕ) → v < 2 ^ 32 → from_be 0 (be32 v) ≡ v
unfolding be32 from_be
from_be-be32 v h = omega arith

from_be-be64 : (v : ℕ) → v < 2 ^ 64 → from_be 0 (be64 v) ≡ v
unfolding be64 from_be
from_be-be64 v h = omega arith

-- Eight bytes as two halves of four.
halves :
    (a b c d e f g h : ℕ)
    → from_be 0 (a ∷ b ∷ c ∷ d ∷ e ∷ f ∷ g ∷ h ∷ [])
      ≡ from_be 0 (a ∷ b ∷ c ∷ d ∷ []) * 2 ^ 32 + from_be 0 (e ∷ f ∷ g ∷ h ∷ [])
unfolding from_be
halves a b c d e f g h = omega arith

be32-low : (x y : ℕ) → be32 (x * 2 ^ 32 + y) ≡ be32 y
unfolding be32
be32-low x y = ground arith

be64-halves : (v : ℕ) → be64 v ≡ be32 (v / 2 ^ 32) ++ be32 v
unfolding be64
be64-halves v = refl

eight_bytes :
    (p q : Bytes)
    → All IsByte p
    → All IsByte q
    → length p ≡ 4
    → length q ≡ 4
    → (be64 (from_be 0 p * 2 ^ 32 + from_be 0 q) ≡ p ++ q)
      × (from_be 0 p * 2 ^ 32 + from_be 0 q < 2 ^ 64)
eight_bytes p q hp hq lp lq =
    let (ep, bp) = be32-from_be p hp lp in
    let (eq, bq) = be32-from_be q hq lq in
    let high : (from_be 0 p * 2 ^ 32 + from_be 0 q) / 2 ^ 32 ≡ from_be 0 p = omega arith in
    (rw (be64-halves, high, ep, be32-low, eq), omega arith)

be64-from_be :
    (p : Bytes) → All IsByte p → length p ≡ 8 → (be64 (from_be 0 p) ≡ p) × (from_be 0 p < 2 ^ 64)
be64-from_be (a ∷ b ∷ c ∷ d ∷ e ∷ f ∷ g ∷ h ∷ []) k l =
    rw (halves a b c d e f g h)
      (eight_bytes (a ∷ b ∷ c ∷ d ∷ []) (e ∷ f ∷ g ∷ h ∷ []) (omega arith) (omega arith) refl refl)
be64-from_be (a ∷ b ∷ c ∷ d ∷ e ∷ f ∷ g ∷ h ∷ i ∷ p) k l = absurd (omega arith)
be64-from_be [] k l = absurd (omega arith)
be64-from_be (a ∷ []) k l = absurd (omega arith)
be64-from_be (a ∷ b ∷ []) k l = absurd (omega arith)
be64-from_be (a ∷ b ∷ c ∷ []) k l = absurd (omega arith)
be64-from_be (a ∷ b ∷ c ∷ d ∷ []) k l = absurd (omega arith)
be64-from_be (a ∷ b ∷ c ∷ d ∷ e ∷ []) k l = absurd (omega arith)
be64-from_be (a ∷ b ∷ c ∷ d ∷ e ∷ f ∷ []) k l = absurd (omega arith)
be64-from_be (a ∷ b ∷ c ∷ d ∷ e ∷ f ∷ g ∷ []) k l = absurd (omega arith)

be16-IsByte : (v : ℕ) → All IsByte (be16 v)
unfolding be16
be16-IsByte v = omega arith

be32-IsByte : (v : ℕ) → All IsByte (be32 v)
unfolding be32
be32-IsByte v = omega arith

be64-IsByte : (v : ℕ) → All IsByte (be64 v)
unfolding be64
be64-IsByte v = omega arith

from_be-be16 : (v : ℕ) → v < 2 ^ 16 → from_be 0 (be16 v) ≡ v
unfolding be16 from_be
from_be-be16 v h = omega arith

pub uint16-IsFormat : IsFormat (λ v. v < 2 ^ 16) (λ b v. ok (write_uint16 b v)) read_uint16
unfolding write_uint16 read_uint16
uint16-IsFormat = big_endian 2 (2 ^ 16) be16 (λ v. refl) be16-IsByte from_be-be16 be16-from_be

pub uint32-IsFormat : IsFormat (λ v. v < 2 ^ 32) (λ b v. ok (write_uint32 b v)) read_uint32
unfolding write_uint32 read_uint32
uint32-IsFormat = big_endian 4 (2 ^ 32) be32 (λ v. refl) be32-IsByte from_be-be32 be32-from_be

pub uint64-IsFormat : IsFormat (λ v. v < 2 ^ 64) (λ b v. ok (write_uint64 b v)) read_uint64
unfolding write_uint64 read_uint64
uint64-IsFormat = big_endian 8 (2 ^ 64) be64 (λ v. refl) be64-IsByte from_be-be64 be64-from_be

take_bytes-lt :
    {T : Type 0} (k : ℕ) (f : Bytes → T) (c : Cursor) (x : T) (more : Cursor)
    → ◌>>=◌ {T = T × Cursor} (take_bytes c (suc k)) (λ (p, c'). ok (f p, c')) ≡ ok (x, more)
    → length more < length c
take_bytes-lt k f c x more e =
    let ((p, c'), e₁, e₂) = >>=-eq-ok (take_bytes c (suc k)) _ e in
    let (w, l) = take_bytes-eq-ok c p c' (suc k) e₁ in
    let back : c' ≡ more = cc e₂ in omega (arith, ap length w, length-append p c', ap length back)

pub uint8-IsStrict : IsStrict (λ v. v < 2 ^ 8) (λ b v. ok (write_uint8 b v)) read_uint8
unfolding read_uint8
uint8-IsStrict = record {
  format = uint8-IsFormat;
  progress = λ c x more k. take_bytes-lt 0 (from_be 0) c x more;
}

pub uint16-IsStrict : IsStrict (λ v. v < 2 ^ 16) (λ b v. ok (write_uint16 b v)) read_uint16
unfolding read_uint16
uint16-IsStrict = record {
  format = uint16-IsFormat;
  progress = λ c x more k. take_bytes-lt 1 (from_be 0) c x more;
}

pub uint32-IsStrict : IsStrict (λ v. v < 2 ^ 32) (λ b v. ok (write_uint32 b v)) read_uint32
unfolding read_uint32
uint32-IsStrict = record {
  format = uint32-IsFormat;
  progress = λ c x more k. take_bytes-lt 3 (from_be 0) c x more;
}

pub uint64-IsStrict : IsStrict (λ v. v < 2 ^ 64) (λ b v. ok (write_uint64 b v)) read_uint64
unfolding read_uint64
uint64-IsStrict = record {
  format = uint64-IsFormat;
  progress = λ c x more k. take_bytes-lt 7 (from_be 0) c x more;
}

-- A number of the width is determined by its bytes.
pub be32-injective : (v w : ℕ) → v < 2 ^ 32 → w < 2 ^ 32 → be32 v ≡ be32 w → v ≡ w
be32-injective v w h k e = cc (from_be-be32 v h, from_be-be32 w k, e)

pub be64-injective : (v w : ℕ) → v < 2 ^ 64 → w < 2 ^ 64 → be64 v ≡ be64 w → v ≡ w
be64-injective v w h k e = cc (from_be-be64 v h, from_be-be64 w k, e)
