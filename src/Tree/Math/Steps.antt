-- ===== src/Tree/Math/Steps.antt =====
-- mls/tree/math.go: level, Left, the raw right child and parentStep in coordinates.
use mls_go.Prelude.{
  ℕ, zero, suc, ◌+◌, ◌-◌, ◌*◌, ◌/◌, ◌%◌, ◌^◌, ◌≤◌, ◌<◌, ◌≡◌, sym, ap, ap₂, arith, none, some,
  if◌then◌else◌, ◌==◌, inl, inr, ◌∙◌, lt_or_ge,
}
use native.Mathlib.Nat.{div-div-eq-div-mul, pow-suc, pow-le-pow_right}
use Prim.Native.Nat.{bit_and, bit_or, bit_xor}
use mls_go.Tree.Math.{shl, shr, level_loop, level, left, parent_step}
use mls_go.Tree.Math.Coordinates.{
  node, filled, odd_test, node-left, node-filled, node-parent, node-bound,
}

half_node : (k q : ℕ) → node (suc k) q / 2 ≡ node k q
unfolding node
half_node k q = omega arith

pub double : (j : ℕ) → 2 ^ suc j ≡ 2 * 2 ^ j
double j = omega (arith, pow-suc 2 j)

shr-node : (j k d q : ℕ) → k ≡ j + d → node k q / 2 ^ j ≡ node d q
shr-node zero k d q e = rw (e) (ground arith)
shr-node (suc j) zero d q e = absurd (omega arith)
shr-node (suc j) (suc k) d q e = omega (
  arith,
  div-div-eq-div-mul (node (suc k) q) 2 (2 ^ j),
  ap (λ (t : ℕ). node (suc k) q / t) (double j),
  ap (λ (t : ℕ). t / 2 ^ j) (half_node k q),
  shr-node j k d q (omega arith),
)

level_loop-node : (d f j k q : ℕ) → d < f → k ≡ j + d → level_loop f (node k q) j ≡ k
unfolding level_loop node
level_loop-node d zero j k q h e = absurd (omega arith)
level_loop-node zero (suc f) j k q h e =
    ground (arith, odd_test (node k q / 2 ^ j), shr-node j k 0 q e)
level_loop-node (suc d) (suc f) j k q h e = ground (
  arith,
  odd_test (node k q / 2 ^ j),
  shr-node j k (suc d) q e,
  level_loop-node d f (suc j) k q (omega arith) (omega arith),
)

pub level-node : (k q : ℕ) → k < 32 → level (node k q) ≡ k
unfolding level node
level-node zero q h = ground (arith, odd_test (2 * q))
level-node (suc k) q h =
    ground
      (arith, odd_test (2 * node k q + 1), level_loop-node (suc k) 32 0 (suc k) q h (omega arith))

pow_split : (k : ℕ) → 32 ≤ k → 2 ^ 32 ≤ 2 ^ k
pow_split k h = pow-le-pow_right (omega arith) h

-- A node below 2^31 is at a level below 32, and its steps do not overflow.
pub node_level_small : (k q : ℕ) → node k q < 2 ^ 31 → k < 32
node_level_small k q h = elim (lt_or_ge k 32) [
  | inl small ↦ small
  | inr big ↦ absurd (omega (arith, pow_split k big, node-bound k q))
]

-- a shift that keeps every bit
pub shl-fits : (x k : ℕ) → x * 2 ^ k < 2 ^ 32 → shl x k ≡ x * 2 ^ k
shl-fits x k h = omega arith

pub pow_le : (a b : ℕ) → a ≤ b → 2 ^ a ≤ 2 ^ b
pow_le a b h = pow-le-pow_right (omega arith) h

one_shifted : (k : ℕ) → k < 32 → shl 1 k ≡ 2 ^ k
one_shifted k h = omega (arith, pow_le k 31 (omega arith))

left_of_level :
    (x m : ℕ)
    → (if suc m == 0 then none else some (bit_xor x (shl 1 (suc m - 1))))
      ≡ some (bit_xor x (shl 1 m))
left_of_level x m = ground arith

pub left-node : (k q : ℕ) → node (suc k) q < 2 ^ 31 → left (node (suc k) q) ≡ some (node k (2 * q))
unfolding left
left-node k q h =
    let small : suc k < 32 = node_level_small (suc k) q h in
    let x = node (suc k) q in
    ap (λ (l : ℕ). if l == 0 then none else some (bit_xor x (shl 1 (l - 1))))
      (level-node (suc k) q small)
    ∙ left_of_level x k
    ∙ ap some (ap (λ (y : ℕ). bit_xor x y) (one_shifted k (omega arith)) ∙ node-left k q)

next_pow : (k : ℕ) → 2 ^ (k + 1) ≡ 2 ^ k * 2
next_pow k = let next : k + 1 ≡ suc k = omega arith in ap (λ (t : ℕ). 2 ^ t) next ∙ pow-suc 2 k

bit_times : (b t : ℕ) → b < 2 → b * t ≤ t
bit_times zero t h = omega arith
bit_times (suc zero) t h = omega arith
bit_times (suc (suc b)) t h = absurd (omega arith)

position : (k q : ℕ) → node k q / 2 ^ (k + 1) ≡ q
unfolding node
position k q = omega (
  arith,
  div-div-eq-div-mul (node k q) (2 ^ k) 2,
  ap (λ (t : ℕ). node k q / t) (next_pow k),
  ap (λ (t : ℕ). t / 2) (shr-node k k 0 q (omega arith)),
)

toggle : (k q : ℕ) → k < 31 → shl (bit_and (shr (node k q) (k + 1)) 1) (k + 1) ≡ q % 2 * 2 ^ (k + 1)
toggle k q h =
    ap (λ (b : ℕ). shl b (k + 1))
      (odd_test (node k q / 2 ^ (k + 1)) ∙ ap (λ (t : ℕ). t % 2) (position k q))
    ∙ shl-fits (q % 2) (k + 1) (
        omega
          (arith, bit_times (q % 2) (2 ^ (k + 1)) (omega arith), pow_le (k + 1) 31 (omega arith)))

pub parent_step-node : (k q : ℕ) → k < 31 → parent_step (node k q) ≡ node (suc k) (q / 2)
unfolding parent_step
parent_step-node k q h =
    ap
      (λ (l : ℕ).
        bit_xor (bit_or (node k q) (shl 1 l)) (shl (bit_and (shr (node k q) (l + 1)) 1) (l + 1)))
      (level-node k q (omega arith))
    ∙ ap₂ bit_xor
        (ap (λ (y : ℕ). bit_or (node k q) y) (one_shifted k (omega arith)) ∙ node-filled k q)
        (toggle k q h)
    ∙ ap (λ (t : ℕ). bit_xor (filled k q) (q % 2 * t)) (next_pow k ∙ sym (pow-suc 2 k))
    ∙ node-parent k q
