-- ===== src/Tree/Math/Children.antt =====
-- mls/tree/math.go: Parent, Sibling and the two children of a node, in a tree that need not be full.
use mls_go.Prelude.{
  ℕ, zero, suc, ◌+◌, ◌*◌, ◌^◌, ◌≤◌, ◌<◌, ◌≡◌, ◌≢◌, sym, ap, ap₂, arith, ◌∙◌, Option, none, some,
  if◌then◌else◌, ◌==◌,
}
use mls_go.Prelude.Bits.{double_pow}
use mls_go.Tree.Math.{
  level, node_width, left, left_value, right_loop, right, parent_step, parent_loop, parent, sibling,
}
use mls_go.Tree.Math.Coordinates.{node, node-bound}
use mls_go.Tree.Math.Steps.{double, pow_le, level-node, left-node}
use mls_go.Tree.Math.Width.{node_width-value, root-node}
use mls_go.Tree.Math.Family.{some_node, parent_loop-stop, parent-walk}
use mls_go.Tree.Math.Spine.{Climbs, Clamped, step_of_left, scaled}
use mls_go.Tree.Math.Descent.{level_below, right-node, right-leaf, left-leaf, right-Clamped}

same_level : (k q l : ℕ) → k < 31 → l < 31 → node k q ≡ node l 0 → k ≡ l
same_level k q l h h' same =
    sym (level-node k q (omega arith)) ∙ ap level same ∙ level-node l 0 (omega arith)

at_least : (q t : ℕ) → 0 < q → t ≤ q * t
at_least zero t h = absurd (omega arith)
at_least (suc q) t h = grind arith

not_left : (k q l : ℕ) → k < 31 → l < 31 → 0 < q → node k q ≢ node l 0
not_left k q l h h' pos same = omega (
  arith,
  node-bound k q,
  node-bound l 0,
  ap (λ (t : ℕ). 2 ^ t) (same_level k q l h h' same),
  at_least q (2 ^ k) pos,
  pow_le 0 k (omega arith),
)

same_some : {a b : ℕ} → some a ≡ some b → a ≡ b
same_some h = ground (arith, h)

left_at :
    (n x l k q : ℕ)
    → 0 < n
    → n < 2 ^ 29
    → x < node_width n
    → x ≡ node k q
    → left x ≡ some l
    → (l < x) × (parent l n ≡ some x)
left_at n x l zero q positive few inside e h = absurd (ground (arith, ap left e, left-leaf q))
left_at n x l (suc k) q positive few inside e h =
    let width = node_width-value n positive (omega arith) in
    let (top, at_top, short, low, high) = root-node n positive (omega arith) in
    let small : suc k < 31 = level_below (suc k) q 30 (omega arith) in
    let child : l ≡ node k (2 * q) = same_some (sym h ∙ ap left e ∙ left-node k q (omega arith)) in
    let sum = node-bound (suc k) q in
    (
      omega (
        arith,
        sum,
        node-bound k (2 * q),
        double k,
        double_pow q k,
        scaled q k,
        pow_le 0 k (omega arith),
      ),
      parent-walk l n x
          (λ same. omega (
            arith,
            sum,
            double k,
            ap (λ (t : ℕ). 2 ^ t)
                (same_level k (2 * q) top (omega arith) short (sym child ∙ same ∙ at_top)),
          ))
          (ap (λ (t : ℕ). parent_loop 32 (node_width n) (parent_step t)) child
            ∙ ap (parent_loop 32 (node_width n)) (step_of_left k q (omega arith))
            ∙ parent_loop-stop 32 (node_width n) (node (suc k) q) (omega arith)
            ∙ sym e),
    )

right_at :
    (n x r k q : ℕ)
    → 0 < n
    → n < 2 ^ 29
    → x < node_width n
    → x ≡ node k q
    → right x n ≡ some r
    → (x < r) × (r < node_width n) × (parent r n ≡ some x)
unfolding Clamped Climbs
right_at n x r zero q positive few inside e h =
    absurd (ground (arith, ap (λ (t : ℕ). right t n) e, right-leaf q n))
right_at n x r (suc k) q positive few inside e h =
    let width = node_width-value n positive (omega arith) in
    let (top, at_top, short, low, high) = root-node n positive (omega arith) in
    let small : suc k < 31 = level_below (suc k) q 30 (omega arith) in
    let child : r ≡ right_loop 32 (node_width n) (node k (2 * q + 1)) =
      same_some (sym h ∙ ap (λ (t : ℕ). right t n) e ∙ right-node k q n (omega arith)) in
    let (k', q', e', small', pos, above, here, up) =
      right-Clamped n k q positive few (omega arith) in
    (
      omega arith,
      omega arith,
      parent-walk r n x
          (λ same. not_left k' q' top small' short pos (sym e' ∙ sym child ∙ same ∙ at_top))
          (ap (λ (t : ℕ). parent_loop 32 (node_width n) (parent_step t)) child
            ∙ up 32 (omega arith)
            ∙ sym e),
    )

-- In a tree of fewer than 2^29 leaves, the left child of a node of the tree has a smaller index,
-- and Parent of it is the node itself.
pub parent-left :
    (n x l : ℕ)
    → 0 < n
    → n < 2 ^ 29
    → x < node_width n
    → left x ≡ some l
    → (l < x) × (parent l n ≡ some x)
parent-left n x l positive few inside h =
    let (k, q, e) = some_node x in left_at n x l k q positive few inside e h

-- In a tree of fewer than 2^29 leaves, which need not be full, the right child of a node of the
-- tree is another node of the tree, and Parent of it is the node itself: the clamping of Right
-- and that of Parent undo one another, within their rounds.
pub parent-right :
    (n x r : ℕ)
    → 0 < n
    → n < 2 ^ 29
    → x < node_width n
    → right x n ≡ some r
    → (x < r) × (r < node_width n) × (parent r n ≡ some x)
parent-right n x r positive few inside h =
    let (k, q, e) = some_node x in right_at n x r k q positive few inside e h

value_or_zero : Option ℕ → ℕ
value_or_zero o = elim o [ none ↦ 0 | some a ↦ a ]

value-some : (r l : ℕ) → left r ≡ some l → left_value r ≡ l
unfolding left_value value_or_zero
value-some r l h = ap value_or_zero h

sibling-at :
    (x p n l r : ℕ)
    → parent x n ≡ some p
    → left p ≡ some l
    → right p n ≡ some r
    → sibling x n ≡ some (if l == x then r else l)
unfolding sibling value_or_zero
sibling-at x p n l r up at_left at_right =
    ap
      (λ (o : Option ℕ). elim o [
        | none ↦ none
        | some p ↦ some (if left_value p == x then value_or_zero (right p n) else left_value p)
      ])
      up
    ∙ ap₂ (λ (a b : ℕ). some (if a == x then b else a)) (value-some p l at_left)
        (ap value_or_zero at_right)

pick_other : (l r : ℕ) → l < r → (if l == r then r else l) ≡ l
pick_other l r h = ground arith

pick_same : (l r : ℕ) → (if l == l then r else l) ≡ r
pick_same l r = ground arith

-- In a tree of fewer than 2^29 leaves, the two children of a node of the tree are each other's
-- siblings.
pub sibling-children :
    (n x l r : ℕ)
    → 0 < n
    → n < 2 ^ 29
    → x < node_width n
    → left x ≡ some l
    → right x n ≡ some r
    → (sibling l n ≡ some r) × (sibling r n ≡ some l)
sibling-children n x l r positive few inside at_left at_right =
    let (below, up) = parent-left n x l positive few inside at_left in
    let (above, here, up') = parent-right n x r positive few inside at_right in
    (
      sibling-at l x n l r up at_left at_right ∙ ap some (pick_same l r),
      sibling-at r x n l r up' at_left at_right ∙ ap some (pick_other l r (omega arith)),
    )
