-- ===== src/Tree/Math/Coordinates.antt =====
-- mls/tree/math.go: a node index as its level and its position among the nodes of that level.
use mls_go.Prelude.{ℕ, zero, suc, ◌+◌, ◌*◌, ◌/◌, ◌%◌, ◌^◌, ◌<◌, ◌≡◌, ap, arith}
use Prim.Native.Nat.{bit_and, bit_or, bit_xor, differ}
use mls_go.Prelude.Bits.{bit_and_mask, bit_or_digit, bit_or-zero, double_pow}
use mls_go.Prelude.Xor.{differ_self, bit_xor_digit, bit_xor-zero}

-- The index of node `q` of level `k`: `q`, a 0, then `k` ones.
unfoldable pub node : ℕ → ℕ → ℕ
node zero q = 2 * q
node (suc k) q = 2 * node k q + 1

-- `q`, then `k + 1` ones
unfoldable pub filled : ℕ → ℕ → ℕ
filled zero q = 2 * q + 1
filled (suc k) q = 2 * filled k q + 1

pub odd_test : (a : ℕ) → bit_and a 1 ≡ a % 2
odd_test a = bit_and_mask 1 a

pub node-left : (k q : ℕ) → bit_xor (node (suc k) q) (2 ^ k) ≡ node k (2 * q)
unfolding node
node-left zero q = ground (arith, bit_xor_digit (2 * (2 * q) + 1) 1, bit_xor-zero (2 * q))
node-left (suc k) q =
    ground
      (arith, bit_xor_digit (2 * node (suc k) q + 1) (2 ^ suc k), double_pow 1 k, node-left k q)

pub node-right : (k q : ℕ) → bit_xor (node (suc k) q) (3 * 2 ^ k) ≡ node k (2 * q + 1)
unfolding node
node-right zero q =
    ground (arith, bit_xor_digit (2 * (2 * q) + 1) 3, bit_xor_digit (2 * q) 1, bit_xor-zero q)
node-right (suc k) q =
    ground (
      arith,
      bit_xor_digit (2 * node (suc k) q + 1) (3 * 2 ^ suc k),
      double_pow 3 k,
      node-right k q,
    )

pub node-filled : (k q : ℕ) → bit_or (node k q) (2 ^ k) ≡ filled k q
unfolding node filled
node-filled zero q = ground (arith, bit_or_digit (2 * q) 1, bit_or-zero q)
node-filled (suc k) q =
    ground (arith, bit_or_digit (2 * node k q + 1) (2 ^ suc k), double_pow 1 k, node-filled k q)

below_two : (r : ℕ) → r < 2 → r / 2 ≡ 0
below_two r h = omega arith

low_low : (q : ℕ) → q % 2 % 2 ≡ q % 2
low_low q = omega arith

drop_low_bit : (q : ℕ) → bit_xor q (q % 2) ≡ 2 * (q / 2)
drop_low_bit q = omega (
  arith,
  bit_xor_digit q (q % 2),
  ap (λ (h : ℕ). bit_xor (q / 2) h) (below_two (q % 2) (omega arith)),
  ap (λ (l : ℕ). differ (q % 2) l) (low_low q),
  bit_xor-zero (q / 2),
  differ_self (q % 2),
)

pub node-parent : (k q : ℕ) → bit_xor (filled k q) (q % 2 * 2 ^ suc k) ≡ node (suc k) (q / 2)
unfolding node filled
node-parent zero q = ground (arith, bit_xor_digit (2 * q + 1) (q % 2 * 2), drop_low_bit q)
node-parent (suc k) q = ground (
  arith,
  bit_xor_digit (2 * filled k q + 1) (q % 2 * 2 ^ suc (suc k)),
  double_pow (q % 2) (suc k),
  node-parent k q,
)

pub node-bound : (k q : ℕ) → 2 ^ k + 2 * (q * 2 ^ k) ≡ node k q + 1
unfolding node
node-bound zero q = ground arith
node-bound (suc k) q = ground (arith, double_pow 1 k, double_pow q k, node-bound k q)
