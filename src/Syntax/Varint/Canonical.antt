-- ===== src/Syntax/Varint/Canonical.antt =====
-- `read_varint` accepts a number only in the bytes that `write_varint` writes for it.
use mls_go.Prelude.{
  ℕ, ◌+◌, ◌*◌, ◌/◌, ◌%◌, ◌^◌, ◌≤◌, ◌<◌, ◌≡◌, ◌⊎◌, inl, inr, [], ◌∷◌, All, length, take, arith, ok,
  err, short_varint, eight_byte_varint, ◌∙◌,
}
use mls_go.Syntax.Varint.{IsByte, Bytes, write_varint, written_length, read_varint}
use mls_go.Syntax.Varint.Forms.{
  accept, read_short_form, read_two, read_four, written_one, written_two, written_four,
}

accept-eq-ok :
    (u len v n : ℕ)
    → accept u len ≡ ok (v, n)
    → (u ≡ v) × (len ≡ n) × (written_length (write_varint u) ≡ len)
accept-eq-ok u len v n e = ground arith

written_length_two : (v : ℕ) → written_length (write_varint v) ≡ 2 → (2 ^ 6 ≤ v) × (v < 2 ^ 14)
unfolding written_length write_varint
written_length_two v h = ground arith

written_length_four : (v : ℕ) → written_length (write_varint v) ≡ 4 → (2 ^ 14 ≤ v) × (v < 2 ^ 30)
unfolding written_length write_varint
written_length_four v h = ground arith

-- What a successful read says of the bytes that it consumed.
abbrev IsCanonical : Bytes → ℕ → ℕ → Type 0
IsCanonical b v n = (write_varint v ≡ ok (take n b)) × (n ≤ length b) × (0 < n) × (v < 2 ^ 30)

bytes_of_two :
    (a b v n : ℕ) (rest : Bytes)
    → a / 64 ≡ 1
    → b < 256
    → read_varint (a ∷ b ∷ rest) ≡ ok (v, n)
    → IsCanonical (a ∷ b ∷ rest) v n
bytes_of_two a b v n rest h hb e =
    let u : ℕ = a % 64 * 256 + b in
    let (ev, en, el) = accept-eq-ok u 2 v n (rw (read_two a b rest h hb) at e) in
    let (lo, hi) = written_length_two u el in
    let form : write_varint u ≡ ok (a ∷ b ∷ []) =
      written_two u lo hi ∙ rw (high_byte a b h hb, low_byte a b hb) in
    rw (← ev, ← en) (form, omega arith, omega arith, omega arith)
  where
    high_byte : (a b : ℕ) → a / 64 ≡ 1 → b < 256 → (a % 64 * 256 + b) / 256 + 64 ≡ a
    high_byte a b h hb = omega arith

    low_byte : (a b : ℕ) → b < 256 → (a % 64 * 256 + b) % 256 ≡ b
    low_byte a b hb = omega arith

four_bytes :
    (a b c d : ℕ)
    → a / 64 ≡ 2
    → b < 256
    → c < 256
    → d < 256
    → let u = a % 64 * 2 ^ 24 + b * 2 ^ 16 + c * 2 ^ 8 + d in
      (u / 2 ^ 24 + 128 ≡ a) × (u / 2 ^ 16 % 256 ≡ b) × (u / 2 ^ 8 % 256 ≡ c) × (u % 256 ≡ d)
four_bytes a b c d h hb hc hd = omega arith

bytes_of_four :
    (a b c d v n : ℕ) (rest : Bytes)
    → a / 64 ≡ 2
    → b < 256
    → c < 256
    → d < 256
    → read_varint (a ∷ b ∷ c ∷ d ∷ rest) ≡ ok (v, n)
    → IsCanonical (a ∷ b ∷ c ∷ d ∷ rest) v n
bytes_of_four a b c d v n rest h hb hc hd e =
    let u : ℕ = a % 64 * 2 ^ 24 + b * 2 ^ 16 + c * 2 ^ 8 + d in
    let (ev, en, el) = accept-eq-ok u 4 v n (rw (read_four a b c d rest h hb hc hd) at e) in
    let (lo, hi) = written_length_four u el in
    let (ea, eb, ec, ed) = four_bytes a b c d h hb hc hd in
    let form : write_varint u ≡ ok (a ∷ b ∷ c ∷ d ∷ []) =
      written_four u lo hi ∙ cc (ea, eb, ec, ed) in
    rw (← ev, ← en) (form, omega arith, omega arith, omega arith)

bytes_of_one :
    (a v n : ℕ) (rest : Bytes)
    → a < 64
    → read_varint (a ∷ rest) ≡ ok (v, n)
    → IsCanonical (a ∷ rest) v n
bytes_of_one a v n rest h e =
    let r = read_short_form a rest h in
    let ev : a ≡ v = cc (r, e) in
    let en : 1 ≡ n = cc (r, e) in
    rw (← ev, ← en) (written_one a h, omega arith, omega arith, omega arith)

prefix_ranges : (a : ℕ) → a < 256 → (a < 64) ⊎ (a / 64 ≡ 1) ⊎ (a / 64 ≡ 2) ⊎ (a / 64 ≡ 3)
prefix_ranges a h = grind arith

-- A form that is cut short is refused, and so is the 8-byte form.
read_two_short : (a : ℕ) → a / 64 ≡ 1 → read_varint (a ∷ []) ≡ err short_varint
unfolding read_varint
read_two_short a h = rw h (ground arith)

read_four_short :
    (a : ℕ) (rest : Bytes)
    → a / 64 ≡ 2
    → length rest < 3
    → read_varint (a ∷ rest) ≡ err short_varint
unfolding read_varint
read_four_short a rest h s = rw h (ground arith)

read_eight : (a : ℕ) (rest : Bytes) → a / 64 ≡ 3 → read_varint (a ∷ rest) ≡ err eight_byte_varint
unfolding read_varint
read_eight a rest h = rw h (ground arith)

-- What ReadVarint accepts is exactly the bytes that WriteVarint produces for the value, which is
-- below 2^30: no number has two accepted encodings.
pub read_varint_canonical :
    (b : Bytes) (v n : ℕ)
    → All IsByte b
    → read_varint b ≡ ok (v, n)
    → (write_varint v ≡ ok (take n b)) × (n ≤ length b) × (0 < n) × (v < 2 ^ 30)
read_varint_canonical [] v n h e = unfold read_varint in cc
read_varint_canonical (a ∷ r) v n h e = elim (prefix_ranges a h.0) [
  | inl p ↦ bytes_of_one a v n r p e
  | inr (inl p) ↦ after_two a v n r p h e
  | inr (inr (inl p)) ↦ after_four a v n r p h e
  | inr (inr (inr p)) ↦ cc (read_eight a r p)
]
  where
    after_two :
        (a v n : ℕ) (r : Bytes)
        → a / 64 ≡ 1
        → All IsByte (a ∷ r)
        → read_varint (a ∷ r) ≡ ok (v, n)
        → IsCanonical (a ∷ r) v n
    after_two a v n [] p h e = cc (read_two_short a p)
    after_two a v n (b ∷ r) p h e = bytes_of_two a b v n r p h.1.0 e

    after_four :
        (a v n : ℕ) (r : Bytes)
        → a / 64 ≡ 2
        → All IsByte (a ∷ r)
        → read_varint (a ∷ r) ≡ ok (v, n)
        → IsCanonical (a ∷ r) v n
    after_four a v n (b ∷ c ∷ d ∷ r) p h e = bytes_of_four a b c d v n r p h.1.0 h.1.1.0 h.1.1.1.0 e
    after_four a v n [] p h e = cc (read_four_short a [] p (omega arith))
    after_four a v n (b ∷ []) p h e = cc (read_four_short a (b ∷ []) p (omega arith))
    after_four a v n (b ∷ c ∷ []) p h e = cc (read_four_short a (b ∷ c ∷ []) p (omega arith))
