-- ===== src/Tree/RatchetTree/FullWidth.antt =====
-- `fullWidth`, the size that a decoded node array is filled up to.
use mls_go.Prelude.{
  ℕ, zero, suc, ◌+◌, ◌*◌, ◌%◌, ◌^◌, ◌≤◌, ◌<◌, ◌≡◌, ◌⊎◌, inl, inr, arith, lt_or_ge, ap, refl,
}
use mls_go.Prelude.Bits.{double_pow}
use mls_go.Tree.RatchetTree.{full_width, full_width_loop}

scaled_step : (w f : ℕ) → (2 * w + 2) * 2 ^ f ≡ 2 * ((w + 1) * 2 ^ f)
scaled_step w f = grind arith

full_width_loop-bounds :
    (f n w : ℕ)
    → n < 2 ^ 31
    → n < (w + 1) * 2 ^ f
    → (n ≤ full_width_loop f n w) × ((full_width_loop f n w ≡ w) ⊎ (full_width_loop f n w < 2 * n))
unfolding full_width_loop
full_width_loop-bounds zero n w small fits = (omega arith, inl refl)
full_width_loop-bounds (suc f) n w small fits = elim (lt_or_ge w n) [
  | inr done ↦ (ground arith, inl (ground arith))
  | inl more ↦
      let next : (2 * w + 1) % 2 ^ 32 ≡ 2 * w + 1 = omega arith in
      let (low, high) =
        full_width_loop-bounds f n (2 * w + 1) small
          (omega (arith, double_pow (w + 1) f, scaled_step w f)) in
      ground (arith, ap (full_width_loop f n) next, low, high)
]

at_least_one : (n r : ℕ) → 0 < n → n ≤ r → (r ≡ 1) ⊎ (r < 2 * n) → (n ≤ r) × (r < 2 * n)
at_least_one n r h low high = ground (arith, low, high)

-- For a positive number below 2^31, fullWidth ends within its rounds at a width that is not
-- smaller, and smaller than twice the number.
pub full_width-bounds : (n : ℕ) → 0 < n → n < 2 ^ 31 → (n ≤ full_width n) × (full_width n < 2 * n)
unfolding full_width
full_width-bounds n h k =
    let (low, high) = full_width_loop-bounds 32 n 1 k (omega arith) in
    at_least_one n (full_width_loop 32 n 1) h low high
