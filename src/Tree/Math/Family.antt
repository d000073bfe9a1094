-- ===== src/Tree/Math/Family.antt =====
-- mls/tree/math.go: how Left, Right, Parent and Sibling fit together in a tree that need not be full.
use mls_go.Prelude.{
  ℕ, zero, suc, ◌+◌, ◌*◌, ◌/◌, ◌%◌, ◌^◌, ◌≤◌, ◌<◌, ◌≡◌, ◌≢◌, refl, ap, arith, inl, inr, ◌∙◌,
  lt_or_ge, Option, none, some, if◌then◌else◌, ◌==◌,
}
use mls_go.Tree.Math.{level, root, node_width, parent_step, parent_loop, parent}
use mls_go.Tree.Math.Coordinates.{node, node-bound}
use mls_go.Tree.Math.Steps.{double, parent_step-node}
use mls_go.Tree.Math.Width.{root-node}

-- Every index is that of one node.
node_below : (b x : ℕ) → x ≤ b → (k : ℕ) × (q : ℕ) × (x ≡ node k q)
unfolding node
node_below b zero h = (0, 0, refl)
node_below zero (suc x) h = absurd (omega arith)
node_below (suc b) (suc x) h = elim (lt_or_ge (suc x % 2) 1) [
  | inl even ↦ (0, suc x / 2, omega arith)
  | inr odd ↦ let (k, q, e) = node_below b (suc x / 2) (omega arith) in (suc k, q, omega arith)
]

pub some_node : (x : ℕ) → (k : ℕ) × (q : ℕ) × (x ≡ node k q)
some_node x = node_below x x (omega arith)

pub leftmost_in_range : (k l q w : ℕ) → l ≡ k → 2 ^ l ≤ w → q < 1 → node k q < w
leftmost_in_range k l zero w e low h = omega (arith, node-bound k 0, ap (λ (t : ℕ). 2 ^ t) e)
leftmost_in_range k l (suc q) w e low h = absurd (omega arith)

-- When the walk reaches a node in range it stays there.
pub parent_loop-stop : (f w p : ℕ) → p < w → parent_loop f w p ≡ p
unfolding parent_loop
parent_loop-stop zero w p h = refl
parent_loop-stop (suc f) w p h = ground arith

-- From below the root, the walk to the parent ends in range, within as many rounds as levels are left.
climb :
    (d f k l q w : ℕ)
    → d ≤ f
    → l ≡ d + k
    → l < 31
    → 2 ^ l ≤ w
    → q < 2 ^ d
    → parent_loop f w (node k q) < w
unfolding parent_loop
climb zero zero k l q w h e s low p = leftmost_in_range k l q w (omega arith) low p
climb zero (suc f) k l q w h e s low p =
    ground (arith, leftmost_in_range k l q w (omega arith) low p)
climb (suc d) zero k l q w h e s low p = absurd (omega arith)
climb (suc d) (suc f) k l q w h e s low p =
    let next : parent_step (node k q) ≡ node (suc k) (q / 2) = parent_step-node k q (omega arith) in
    let rest : parent_loop f w (node (suc k) (q / 2)) < w =
      climb d f (suc k) l (q / 2) w (omega arith) (omega arith) s low (omega (arith, double d)) in
    ground (arith, ap (parent_loop f w) next)

-- A node of a tree that is not the root is below the root's level.
pub below_root :
    (k q l : ℕ)
    → node k q + 1 < 2 * 2 ^ l
    → node k q ≢ node l 0
    → (d : ℕ) × (l ≡ suc d + k) × (q < 2 ^ suc d)
unfolding node
below_root zero q zero h other = absurd (other (omega arith))
below_root zero q (suc d) h other = (d, omega arith, omega arith)
below_root (suc k) q zero h other = absurd (omega arith)
below_root (suc k) q (suc l) h other =
    let (d, e, p) =
      below_root k q l (omega (arith, double l)) (λ same. other (ap (λ (t : ℕ). 2 * t + 1) same)) in
    (d, omega arith, p)

not_taken : (x r : ℕ) (o : Option ℕ) → x ≢ r → (if x == r then none else o) ≡ o
not_taken x r o other = ground arith

pub parent-walk :
    (x n p : ℕ)
    → x ≢ root n
    → parent_loop 32 (node_width n) (parent_step x) ≡ p
    → parent x n ≡ some p
unfolding parent
parent-walk x n p other h =
    not_taken x (root n) (some (parent_loop 32 (node_width n) (parent_step x))) other ∙ ap some h

-- In a tree of fewer than 2^29 leaves, Parent of a node of the tree other than the root ends its
-- walk within its rounds at a node of the tree.
pub parent_in_range :
    (n x : ℕ)
    → 0 < n
    → n < 2 ^ 29
    → x < node_width n
    → x ≢ root n
    → (p : ℕ) × (parent x n ≡ some p) × (p < node_width n)
parent_in_range n x positive small inside other =
    let (l, top, short, low, high) = root-node n positive (omega arith) in
    let (k, q, e) = some_node x in
    let (d, level, p) = below_root k q l (omega arith) (λ same. other (omega arith)) in
    let from : parent_step x ≡ node (suc k) (q / 2) =
      ap parent_step e ∙ parent_step-node k q (omega arith) in
    let reached : parent_loop 32 (node_width n) (node (suc k) (q / 2)) < node_width n =
      climb d 32 (suc k) l (q / 2) (node_width n) (omega arith) (omega arith) short low
        (omega (arith, double d)) in
    (
      parent_loop 32 (node_width n) (node (suc k) (q / 2)),
      parent-walk x n _ other (ap (parent_loop 32 (node_width n)) from),
      reached,
    )
