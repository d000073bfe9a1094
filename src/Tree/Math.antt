-- ===== src/Tree/Math.antt =====
-- mls/tree/math.go: node indices of the left-balanced binary tree. Numbers are uint32: a shift to the
-- left keeps the low 32 bits. A result with `ok = false` is `none`.
pub mod Coordinates
pub mod Steps
pub mod Width
pub mod Family
pub mod Spine
pub mod Descent
pub mod Children
mod Tests
use mls_go.Prelude.{
  ℕ, zero, suc, ◌+◌, ◌-◌, ◌*◌, ◌/◌, ◌%◌, ◌^◌, Option, none, some, ltb, ◌==◌, if◌then◌else◌,
}
use Prim.Native.Nat.{bit_and, bit_or, bit_xor}

-- `x << k` and `x >> k` of uint32
abbrev pub shl : ℕ → ℕ → ℕ
shl x k = x * 2 ^ k % 2 ^ 32

abbrev pub shr : ℕ → ℕ → ℕ
shr x k = x / 2 ^ k

unfoldable pub node_width : ℕ → ℕ
node_width n_leaves = if n_leaves == 0 then 0 else (2 * (n_leaves - 1) + 1) % 2 ^ 32

-- bits.Len32: the number of binary digits. A uint32 has at most 32.
unfoldable pub len32 : ℕ → ℕ → ℕ
len32 zero x = 0
len32 (suc fuel) x = let rest = len32 fuel (x / 2) in if x == 0 then 0 else suc rest

unfoldable pub log2 : ℕ → ℕ
unfolding len32
log2 x = if x == 0 then 0 else len32 32 x - 1

-- `for (x>>k)&1 == 1 { k++ }`, with a bound on the rounds: bit 32 of a uint32 is 0.
unfoldable pub level_loop : ℕ → ℕ → ℕ → ℕ
level_loop zero x k = k
level_loop (suc fuel) x k =
    let rest = level_loop fuel x (suc k) in if bit_and (shr x k) 1 == 1 then rest else k

unfoldable pub level : ℕ → ℕ
unfolding level_loop
level x = if bit_and x 1 == 0 then 0 else level_loop 32 x 0

unfoldable pub root : ℕ → ℕ
unfolding node_width log2
root n_leaves = shl 1 (log2 (node_width n_leaves)) - 1

unfoldable pub left : ℕ → Option ℕ
unfolding level
left x = let k = level x in if k == 0 then none else some (bit_xor x (shl 1 (k - 1)))

-- `r, _ = Left(r)`: the value, which is 0 on a leaf
unfoldable pub left_value : ℕ → ℕ
unfolding left
left_value r = elim (left r) [ none ↦ 0 | some l ↦ l ]

-- `for r >= w { r, _ = Left(r) }`, with a bound on the rounds: each goes down a level.
unfoldable pub right_loop : ℕ → ℕ → ℕ → ℕ
unfolding left_value
right_loop zero w r = r
right_loop (suc fuel) w r =
    let rest = right_loop fuel w (left_value r) in if ltb r w then r else rest

unfoldable pub right : ℕ → ℕ → Option ℕ
unfolding level node_width right_loop
right x n_leaves =
    let k = level x in
    if k == 0 then none else some (right_loop 32 (node_width n_leaves) (bit_xor x (shl 3 (k - 1))))

unfoldable pub parent_step : ℕ → ℕ
unfolding level
parent_step x =
    let k = level x in
    let b = bit_and (shr x (k + 1)) 1 in bit_xor (bit_or x (shl 1 k)) (shl b (k + 1))

-- `for p >= w { p = parentStep(p) }`, with a bound on the rounds: each goes up a level.
unfoldable pub parent_loop : ℕ → ℕ → ℕ → ℕ
unfolding parent_step
parent_loop zero w p = p
parent_loop (suc fuel) w p =
    let rest = parent_loop fuel w (parent_step p) in if ltb p w then p else rest

unfoldable pub parent : ℕ → ℕ → Option ℕ
unfolding root node_width parent_loop
parent x n_leaves =
    if x == root n_leaves then none else some (parent_loop 32 (node_width n_leaves) (parent_step x))

unfoldable pub sibling : ℕ → ℕ → Option ℕ
unfolding parent left_value right
sibling x n_leaves = elim (parent x n_leaves) [
  | none ↦ none
  | some p ↦
      let r : ℕ = elim (right p n_leaves) [ none ↦ 0 | some r ↦ r ] in
      some (if left_value p == x then r else left_value p)
]
