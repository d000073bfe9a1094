-- ===== src/Prelude/Bits.antt =====
-- `|` of disjoint bit fields and `&` with a low mask as arithmetic, for every width.
use Prim.Native.Nat.{
  ℕ, zero, suc, ◌+◌, ◌-◌, ◌*◌, ◌/◌, ◌%◌, ◌^◌, ◌≤◌, ◌<◌, min, max, digits, bit_and, bit_or,
  bit_and-bitwise, bit_or-bitwise,
}
use mathlib.Core.Path.{◌≡◌, refl, ap, ◌∙◌}
use mathlib.Core.Logic.{◌⊎◌, inl, inr}
use native.Mathlib.Nat.{pow-suc, one-le-pow}
use native.Mathlib.Omega.{arith}

-- The native operations recur on binary digits with fuel; any fuel that is large enough agrees.
module _ (z : ℕ → ℕ) (f : ℕ → ℕ → ℕ) where
  pub digits_enough : (n m a b : ℕ) → a ≤ n → a ≤ m → digits z f n a b ≡ digits z f m a b
  digits_enough zero zero a b p q = refl
  digits_enough zero (suc m) zero b p q = refl
  digits_enough zero (suc m) (suc a) b p q = absurd (omega arith)
  digits_enough (suc n) zero zero b p q = refl
  digits_enough (suc n) zero (suc a) b p q = absurd (omega arith)
  digits_enough (suc n) (suc m) zero b p q = refl
  digits_enough (suc n) (suc m) (suc a) b p q =
      rw (digits_enough n m (suc a / 2) (b / 2) (omega arith) (omega arith))

pub bit_or_digit : (a b : ℕ) → bit_or a b ≡ bit_or (a / 2) (b / 2) * 2 + max (a % 2) (b % 2)
bit_or_digit zero b = simp bit_or-bitwise (omega arith)
bit_or_digit (suc a) b = omega (
  arith,
  bit_or-bitwise (suc a) b,
  bit_or-bitwise (suc a / 2) (b / 2),
  digits_enough (λ y. y) max a (suc a / 2) (suc a / 2) (b / 2) (omega arith) (omega arith),
)

pub bit_and_digit : (a b : ℕ) → bit_and a b ≡ bit_and (a / 2) (b / 2) * 2 + min (a % 2) (b % 2)
bit_and_digit zero b = simp bit_and-bitwise (omega arith)
bit_and_digit (suc a) b = omega (
  arith,
  bit_and-bitwise (suc a) b,
  bit_and-bitwise (suc a / 2) (b / 2),
  digits_enough (λ y. 0) min a (suc a / 2) (suc a / 2) (b / 2) (omega arith) (omega arith),
)

-- Structural on a bound, since the digit step goes from `a / 2` to `a`.
bit_or-zero_below : (n a : ℕ) → a ≤ n → bit_or a 0 ≡ a
bit_or-zero_below n zero h = refl
bit_or-zero_below zero (suc a) h = absurd (omega arith)
bit_or-zero_below (suc n) (suc a) h =
    omega (arith, bit_or_digit (suc a) 0, bit_or-zero_below n (suc a / 2) (omega arith))

pub bit_or-zero : (a : ℕ) → bit_or a 0 ≡ a
bit_or-zero a = bit_or-zero_below a a (omega arith)

bit_and-zero_below : (n a : ℕ) → a ≤ n → bit_and a 0 ≡ 0
bit_and-zero_below n zero h = refl
bit_and-zero_below zero (suc a) h = absurd (omega arith)
bit_and-zero_below (suc n) (suc a) h =
    omega (arith, bit_and_digit (suc a) 0, bit_and-zero_below n (suc a / 2) (omega arith))

pub bit_and-zero : (a : ℕ) → bit_and a 0 ≡ 0
bit_and-zero a = bit_and-zero_below a a (omega arith)

pub double_pow : (q k : ℕ) → q * 2 ^ suc k ≡ 2 * (q * 2 ^ k)
double_pow q k = omega (arith, ap (λ (t : ℕ). q * t) (pow-suc 2 k))

-- `(q << k) | r` is a sum where `r` fits `k` bits.
pub bit_or_disjoint : (k q r : ℕ) → r < 2 ^ k → bit_or (q * 2 ^ k) r ≡ q * 2 ^ k + r
bit_or_disjoint zero q r fits = ground (arith, bit_or-zero q)
bit_or_disjoint (suc k) q r fits = ground (
  arith,
  bit_or_digit (q * 2 ^ suc k) r,
  double_pow q k,
  bit_or_disjoint k q (r / 2) (omega arith),
)

bit_and_low : (k q r : ℕ) → r < 2 ^ k → bit_and (q * 2 ^ k + r) (2 ^ k - 1) ≡ r
bit_and_low zero q r fits = omega (arith, bit_and-zero (q * 2 ^ 0 + r))
bit_and_low (suc k) q r fits = ground (
  arith,
  bit_and_digit (q * 2 ^ suc k + r) (2 ^ suc k - 1),
  double_pow q k,
  pow-suc 2 k,
  bit_and_low k q (r / 2) (omega arith),
)

-- `a & (2^k - 1)` is the remainder by `2 ^ k`.
pub bit_and_mask : (k a : ℕ) → bit_and a (2 ^ k - 1) ≡ a % 2 ^ k
bit_and_mask k a = ground (arith, one-le-pow k 2, bit_and_low k (a / 2 ^ k) (a % 2 ^ k))

-- Setting the bit `k` of a number of `k + 1` bits.
pub bit_or_top :
    (k x : ℕ)
    → x < 2 * 2 ^ k
    → (r : ℕ) × (bit_or x (2 ^ k) ≡ 2 ^ k + r) × (r < 2 ^ k) × ((x ≡ r) ⊎ (x ≡ 2 ^ k + r))
bit_or_top zero zero h = (0, refl, omega arith, inl refl)
bit_or_top zero (suc zero) h = (0, refl, omega arith, inr refl)
bit_or_top zero (suc (suc x)) h = absurd (omega arith)
bit_or_top (suc k) x h =
    let twice = pow-suc 2 k in
    let (r, same, small, is) = bit_or_top k (x / 2) (omega arith) in
    let half : 2 ^ suc k / 2 ≡ 2 ^ k = omega arith in
    let digit = bit_or_digit x (2 ^ suc k) in
    let inner : bit_or (x / 2) (2 ^ suc k / 2) ≡ 2 ^ k + r = ap (bit_or (x / 2)) half ∙ same in
    (
      2 * r + x % 2,
      omega arith,
      omega arith,
      elim is [ inl low ↦ inl (omega arith) | inr high ↦ inr (omega arith) ],
    )
