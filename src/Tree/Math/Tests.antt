-- ===== src/Tree/Math/Tests.antt =====
-- The tree of five leaves: its nodes are 0 to 8, its root is 7, and leaf 8 hangs below the root.
use mls_go.Prelude.{ℕ, ◌<◌, ◌≡◌, refl, some, arith}
use mls_go.Tree.Math.{node_width, root, left, right, parent, sibling}
use mls_go.Tree.Math.Family.{parent_in_range}
use mls_go.Tree.Math.Children.{parent-right, sibling-children}

clamped : right 7 5 ≡ some 8
unfolding right
clamped = refl

parent-right_example : (7 < 8) × (8 < node_width 5) × (parent 8 5 ≡ some 7)
unfolding right node_width
parent-right_example = parent-right 5 7 8 (omega arith) (omega arith) (omega arith) refl

sibling-children_example : (sibling 3 5 ≡ some 8) × (sibling 8 5 ≡ some 3)
unfolding left right node_width
sibling-children_example =
    sibling-children 5 7 3 8 (omega arith) (omega arith) (omega arith) refl refl

parent_in_range_example : (p : ℕ) × (parent 8 5 ≡ some p) × (p < node_width 5)
unfolding root node_width
parent_in_range_example =
    parent_in_range 5 8 (omega arith) (omega arith) (omega arith) (λ same. cc same)
