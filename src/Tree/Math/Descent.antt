-- ===== src/Tree/Math/Descent.antt =====
-- mls/tree/math.go: Left and Right of a node by its level and position.
use mls_go.Prelude.{
  ℕ, suc, ◌+◌, ◌-◌, ◌*◌, ◌^◌, ◌<◌, ◌≡◌, ap, arith, inl, inr, ◌∙◌, lt_or_ge, none, some,
  if◌then◌else◌, ◌==◌,
}
use Prim.Native.Nat.{bit_xor}
use mls_go.Prelude.Bits.{double_pow}
use mls_go.Tree.Math.{shl, node_width, left, right_loop, right, parent_loop}
use mls_go.Tree.Math.Coordinates.{node, node-bound, node-right}
use mls_go.Tree.Math.Steps.{double, pow_le, shl-fits, level-node}
use mls_go.Tree.Math.Width.{node_width-value}
use mls_go.Tree.Math.Family.{parent_loop-stop}
use mls_go.Tree.Math.Spine.{Climbs, Clamped, spine, step_of_right}

right_of_level :
    (x m n : ℕ) (f : ℕ → ℕ)
    → (if suc m == 0 then none else some (f (bit_xor x (shl 3 (suc m - 1)))))
      ≡ some (f (bit_xor x (shl 3 m)))
right_of_level x m n f = ground arith

-- The walk of Right starts at the right child in the full tree.
pub right-node :
    (k q n : ℕ)
    → k < 30
    → right (node (suc k) q) n ≡ some (right_loop 32 (node_width n) (node k (2 * q + 1)))
unfolding right
right-node k q n h =
    let w = node_width n in
    let x = node (suc k) q in
    ap (λ (l : ℕ). if l == 0 then none else some (right_loop 32 w (bit_xor x (shl 3 (l - 1)))))
      (level-node (suc k) q (omega arith))
    ∙ right_of_level x k n (right_loop 32 w)
    ∙ ap (λ (y : ℕ). some (right_loop 32 w y))
        (ap (λ (y : ℕ). bit_xor x y) (shl-fits 3 k (omega (arith, pow_le k 29 (omega arith))))
          ∙ node-right k q)

pub right-leaf : (q n : ℕ) → right (node 0 q) n ≡ none
unfolding right
right-leaf q n =
    ap
      (λ (l : ℕ).
        if l == 0
        then none
        else some (right_loop 32 (node_width n) (bit_xor (node 0 q) (shl 3 (l - 1)))))
      (level-node 0 q (omega arith))

pub left-leaf : (q : ℕ) → left (node 0 q) ≡ none
unfolding left
left-leaf q =
    ap (λ (l : ℕ). if l == 0 then none else some (bit_xor (node 0 q) (shl 1 (l - 1))))
      (level-node 0 q (omega arith))

scaled_odd : (q k : ℕ) → (2 * q + 1) * 2 ^ k ≡ 2 * (q * 2 ^ k) + 2 ^ k
scaled_odd q k = grind arith

pub level_below : (k q b : ℕ) → node k q < 2 ^ b → k < suc b
level_below k q b h = elim (lt_or_ge k (suc b)) [
  | inl low ↦ low
  | inr high ↦
      absurd
        (omega (arith, node-bound k q, pow_le (suc b) k high, double b, pow_le 0 b (omega arith)))
]

-- The right child of an internal node of the tree.
pub right-Clamped :
    (n k q : ℕ)
    → 0 < n
    → n < 2 ^ 29
    → node (suc k) q < node_width n
    → Clamped
        (node (suc k) q + 1)
        (node_width n)
        (right_loop 32 (node_width n) (node k (2 * q + 1)))
        (node (suc k) q)
unfolding Climbs
right-Clamped n k q positive few inside =
    let width = node_width-value n positive (omega arith) in
    let small : suc k < 31 = level_below (suc k) q 30 (omega arith) in
    let sum = node-bound (suc k) q in
    spine k 32 0 (2 * q + 1) (node (suc k) q + 1) (node_width n) (node (suc k) q) (omega arith)
      (omega arith) (omega arith) (omega arith)
      (omega (arith, sum, node-bound k (2 * q + 1), double k, double_pow q k, scaled_odd q k))
      (omega (arith, sum, double k, double_pow q k, scaled_odd q k)) (omega (arith, sum, double k))
      (λ f h.
        ap (parent_loop f (node_width n)) (step_of_right k q (omega arith))
        ∙ parent_loop-stop f (node_width n) (node (suc k) q) inside)
