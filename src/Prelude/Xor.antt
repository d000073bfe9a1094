-- ===== src/Prelude/Xor.antt =====
-- `^` of numbers, a binary digit at a time.
use Prim.Native.Nat.{ℕ, zero, suc, ◌+◌, ◌*◌, ◌/◌, ◌%◌, ◌≤◌, ◌<◌, differ, bit_xor, bit_xor-bitwise}
use mathlib.Core.Path.{◌≡◌, refl}
use mathlib.Core.List.{List, [], ◌∷◌}
use native.Mathlib.Omega.{arith}
use mls_go.Prelude.Bits.{digits_enough}

differ_zero : (x : ℕ) → differ x 0 ≡ x
differ_zero zero = refl
differ_zero (suc x) = refl

pub differ_self : (x : ℕ) → differ x x ≡ 0
differ_self zero = refl
differ_self (suc x) = differ_self x

pub bit_xor_digit : (a b : ℕ) → bit_xor a b ≡ bit_xor (a / 2) (b / 2) * 2 + differ (a % 2) (b % 2)
bit_xor_digit zero b = simp bit_xor-bitwise (omega arith)
bit_xor_digit (suc a) b = omega (
  arith,
  bit_xor-bitwise (suc a) b,
  bit_xor-bitwise (suc a / 2) (b / 2),
  digits_enough (λ y. y) differ a (suc a / 2) (suc a / 2) (b / 2) (omega arith) (omega arith),
)

-- Structural on a bound, since the digit step goes from `a / 2` to `a`.
bit_xor-zero_below : (n a : ℕ) → a ≤ n → bit_xor a 0 ≡ a
bit_xor-zero_below n zero h = refl
bit_xor-zero_below zero (suc a) h = absurd (omega arith)
bit_xor-zero_below (suc n) (suc a) h = omega (
  arith,
  bit_xor_digit (suc a) 0,
  bit_xor-zero_below n (suc a / 2) (omega arith),
  differ_zero (suc a % 2),
)

pub bit_xor-zero : (a : ℕ) → bit_xor a 0 ≡ a
bit_xor-zero a = bit_xor-zero_below a a (omega arith)

differ_cancel : (x y z : ℕ) → x < 2 → y < 2 → z < 2 → differ x y ≡ differ x z → y ≡ z
differ_cancel zero y z hx hy hz h = h
differ_cancel (suc zero) zero zero hx hy hz h = refl
differ_cancel (suc zero) zero (suc zero) hx hy hz h = absurd (omega arith)
differ_cancel (suc zero) (suc zero) zero hx hy hz h = absurd (omega arith)
differ_cancel (suc zero) (suc zero) (suc zero) hx hy hz h = refl
differ_cancel (suc zero) zero (suc (suc z)) hx hy hz h = absurd (omega arith)
differ_cancel (suc zero) (suc zero) (suc (suc z)) hx hy hz h = absurd (omega arith)
differ_cancel (suc zero) (suc (suc y)) z hx hy hz h = absurd (omega arith)
differ_cancel (suc (suc x)) y z hx hy hz h = absurd (omega arith)

differ-lt : (x y : ℕ) → x < 2 → y < 2 → differ x y < 2
differ-lt zero y hx hy = hy
differ-lt (suc zero) zero hx hy = omega arith
differ-lt (suc zero) (suc zero) hx hy = omega arith
differ-lt (suc zero) (suc (suc y)) hx hy = absurd (omega arith)
differ-lt (suc (suc x)) y hx hy = absurd (omega arith)

bit_xor_cancel_below : (n a b c : ℕ) → b ≤ n → c ≤ n → bit_xor a b ≡ bit_xor a c → b ≡ c
bit_xor_cancel_below zero a b c hb hc h = omega arith
bit_xor_cancel_below (suc n) a b c hb hc h =
    let small_b = differ-lt (a % 2) (b % 2) (omega arith) (omega arith) in
    let small_c = differ-lt (a % 2) (c % 2) (omega arith) (omega arith) in
    let digits : bit_xor (a / 2) (b / 2) * 2 + differ (a % 2) (b % 2)
        ≡ bit_xor (a / 2) (c / 2) * 2 + differ (a % 2) (c % 2) =
      omega (arith, bit_xor_digit a b, bit_xor_digit a c) in
    let halves : b / 2 ≡ c / 2 =
      bit_xor_cancel_below n (a / 2) (b / 2) (c / 2) (omega arith) (omega arith) (omega arith) in
    let lows : b % 2 ≡ c % 2 =
      differ_cancel (a % 2) (b % 2) (c % 2) (omega arith) (omega arith) (omega arith)
        (omega arith) in
    omega arith

-- `^` with one number is injective in the other.
pub bit_xor_cancel : (a b c : ℕ) → bit_xor a b ≡ bit_xor a c → b ≡ c
bit_xor_cancel a b c h = bit_xor_cancel_below (b + c) a b c (omega arith) (omega arith) h

-- The loop `r[i] = a[i] ^ b[i]` over two arrays of one length
unfoldable pub xor_bytes : List ℕ → List ℕ → List ℕ
xor_bytes [] bs = []
xor_bytes (a ∷ more) [] = []
xor_bytes (a ∷ more) (b ∷ bs) = bit_xor a b ∷ xor_bytes more bs
