-- ===== src/Tree/Math/Width.antt =====
-- mls/tree/math.go: log2, NodeWidth and Root.
use mls_go.Prelude.{
  ℕ, zero, suc, ◌+◌, ◌-◌, ◌*◌, ◌/◌, ◌^◌, ◌≤◌, ◌<◌, ◌≡◌, refl, ap, arith, inl, inr, lt_or_ge,
}
use mls_go.Tree.Math.{len32, log2, root, node_width}
use mls_go.Tree.Math.Coordinates.{node, node-bound}
use mls_go.Tree.Math.Steps.{double, pow_le, shl-fits}

len32-zero : (f : ℕ) → len32 f 0 ≡ 0
unfolding len32
len32-zero zero = refl
len32-zero (suc f) = refl

-- The number of binary digits of a positive number.
len32-bounds :
    (f x : ℕ)
    → 0 < x
    → x < 2 ^ f
    → (l : ℕ) × (len32 f x ≡ suc l) × (l < f) × (2 ^ l ≤ x) × (x < 2 * 2 ^ l)
unfolding len32
len32-bounds zero x h k = absurd (omega arith)
len32-bounds (suc f) x h k = elim (lt_or_ge x 2) [
  | inl small ↦ (
    0,
    ground (arith, len32-zero f, ap (len32 f) (half_one x h small)),
    omega arith,
    omega arith,
    omega arith,
  )
  | inr big ↦
      let below : x / 2 < 2 ^ f = omega (arith, double f) in
      let (l, e, shorter, low, high) = len32-bounds f (x / 2) (omega arith) below in
      (suc l, ground arith, omega arith, omega (arith, double l), omega (arith, double l))
]
  where
    half_one : (x : ℕ) → 0 < x → x < 2 → x / 2 ≡ 0
    half_one x h small = omega arith

exponent_below : (l w : ℕ) → 2 ^ l ≤ w → w < 2 ^ 31 → l < 31
exponent_below l w low small = elim (lt_or_ge l 31) [
  | inl h ↦ h
  | inr h ↦ absurd (omega (arith, pow_le 31 l h))
]

log2-bounds : (w : ℕ) → 0 < w → w < 2 ^ 31 → (2 ^ log2 w ≤ w) × (w < 2 * 2 ^ log2 w) × (log2 w < 31)
unfolding log2
log2-bounds w h k =
    let (l, e, shorter, low, high) = len32-bounds 32 w h (omega arith) in
    let found : log2 w ≡ l = ground (arith, e) in
    let low' : 2 ^ log2 w ≤ w = omega (arith, ap (λ (t : ℕ). 2 ^ t) found) in
    (low', omega (arith, ap (λ (t : ℕ). 2 ^ t) found), exponent_below (log2 w) w low' k)

pub node_width-value : (n : ℕ) → 0 < n → n < 2 ^ 30 → node_width n ≡ 2 * (n - 1) + 1
unfolding node_width
node_width-value n h k = ground arith

-- The root of a tree is the node of the highest level whose position is 0; it is in range.
pub root-node :
    (n : ℕ)
    → 0 < n
    → n < 2 ^ 30
    → (l : ℕ) × (root n ≡ node l 0) × (l < 31) × (2 ^ l ≤ node_width n) × (node_width n < 2 * 2 ^ l)
unfolding root
root-node n h k =
    let width = node_width-value n h k in
    let (low, high, short) = log2-bounds (node_width n) (omega arith) (omega arith) in
    let l = log2 (node_width n) in
    (l, omega (arith, shl-fits 1 l (omega arith), node-bound l 0), short, low, high)
