-- ===== src/Ironcore/SecurityAssociation/Spis.antt =====
-- The range of the SPIs.
use mls_go.Prelude.{
  ℕ, ◌*◌, ◌/◌, ◌%◌, ◌^◌, ◌<◌, ◌≡◌, inl, inr, All, length, subst, ok, >>=-eq-ok, arith,
}
use Prim.Native.Nat.{bit_or}
use mls_go.Prelude.Bits.{bit_or_disjoint, bit_or_top}
use mls_go.Syntax.Varint.{Bytes, IsByte}
use mls_go.Syntax.Format.Scalars.{be32-from_be}
use mls_go.Cipher.{Suite, kdf_expand, kdf_label, expand_with_label}
use mls_go.Syntax.Cursor.{from_be}
use mls_go.Ironcore.SecurityAssociation.{Sa, mark_spi, spi_context, derive_sender_spi, sender_spi}

-- For every raw value of 32 bits and every epoch the SPI is above the reserved range and a number of
-- 32 bits, and its low byte is the epoch's.
pub mark_spi_bounds :
    (raw epoch : ℕ)
    → raw < 2 ^ 32
    → (255 < mark_spi raw epoch)
      × (mark_spi raw epoch < 2 ^ 32)
      × (mark_spi raw epoch % 2 ^ 8 ≡ epoch % 2 ^ 8)
unfolding mark_spi
mark_spi_bounds raw epoch h =
    let low = bit_or_disjoint 8 (raw / 2 ^ 8) (epoch % 2 ^ 8) (omega arith) in
    let (r, same, small, is) =
      bit_or_top 31 (bit_or (raw / 2 ^ 8 * 2 ^ 8) (epoch % 2 ^ 8)) (omega arith) in
    (omega arith, omega arith, elim is [ inl i ↦ omega arith | inr i ↦ omega arith ])

-- HKDF-Expand of the suite yields the bytes that it is asked for.
abbrev pub ExpandsTo : Suite → Type 0
ExpandsTo suite =
    (secret info : Bytes) (length' : ℕ) (out : Bytes)
    → kdf_expand suite secret info length' ≡ ok out
    → (length out ≡ length') × All IsByte out

expanded :
    (suite : Suite) (secret label context out : Bytes)
    → ExpandsTo suite
    → expand_with_label suite secret label context 4 ≡ ok out
    → (length out ≡ 4) × All IsByte out
unfolding expand_with_label
expanded suite secret label context out sized h =
    let (buf, e, r) = >>=-eq-ok (kdf_label label context 4) _ h in sized secret buf 4 out r

ok_same : {a b : ℕ} → ok a ≡ ok b → a ≡ b
ok_same h = cc h

initialized :
    (sa : Sa) (leaf spi : ℕ)
    → sender_spi sa leaf ≡ ok spi
    → derive_sender_spi sa.suite sa.key sa.vni sa.epoch leaf ≡ ok spi
unfolding sender_spi
initialized sa leaf spi h = ground arith

-- If the key derivation yields the bytes that it is asked for, the SPI of every sender is above
-- the reserved range, fits 32 bits and carries the low byte of the epoch.
pub sender_spi_bounds :
    (sa : Sa) (leaf spi : ℕ)
    → ExpandsTo sa.suite
    → sender_spi sa leaf ≡ ok spi
    → (255 < spi) × (spi < 2 ^ 32) × (spi % 2 ^ 8 ≡ sa.epoch % 2 ^ 8)
unfolding derive_sender_spi
sender_spi_bounds sa leaf spi sized h =
    let (raw, e, r) =
      >>=-eq-ok (expand_with_label sa.suite sa.key _ (spi_context sa.vni sa.epoch leaf) 4) _
        (initialized sa leaf spi h) in
    let (long, bytes) = expanded sa.suite sa.key _ _ raw sized e in
    let (back, small) = be32-from_be raw bytes long in
    let same : mark_spi (from_be 0 raw) sa.epoch ≡ spi = ok_same r in
    subst (λ (s : ℕ). (255 < s) × (s < 2 ^ 32) × (s % 2 ^ 8 ≡ sa.epoch % 2 ^ 8)) same
      (mark_spi_bounds (from_be 0 raw) sa.epoch small)
