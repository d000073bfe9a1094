-- ===== src/Tree/RatchetTree/Mutate/Slots.antt =====
-- Reading and writing the slots of a node array.
use mls_go.Prelude.{
  ℕ, zero, suc, ◌≤◌, ◌<◌, ◌≡◌, ◌≢◌, refl, ap, Option, none, List, [], ◌∷◌, length, take, arith,
  ◌==◌, if◌then◌else◌,
}
use mls_go.Tree.Node.{Node}
use mls_go.Tree.RatchetTree.{slot}
use mls_go.Tree.RatchetTree.Mutate.{set_node}

pub slot-set_node :
    (nodes : List (Option Node)) (i j : ℕ) (v : Option Node)
    → i < length nodes
    → slot (set_node nodes i v) j ≡ (if i == j then v else slot nodes j)
unfolding slot set_node
slot-set_node [] i j v h = absurd (omega arith)
slot-set_node (n ∷ nodes) zero zero v h = refl
slot-set_node (n ∷ nodes) zero (suc j) v h = ground arith
slot-set_node (n ∷ nodes) (suc i) zero v h = ground arith
slot-set_node (n ∷ nodes) (suc i) (suc j) v h =
    ground (arith, slot-set_node nodes i j v (omega arith))

pub slot-set_node_ne :
    (nodes : List (Option Node)) (i j : ℕ) (v : Option Node)
    → i ≢ j
    → slot (set_node nodes i v) j ≡ slot nodes j
unfolding slot set_node
slot-set_node_ne [] i j v h = refl
slot-set_node_ne (n ∷ nodes) zero zero v h = absurd (h refl)
slot-set_node_ne (n ∷ nodes) zero (suc j) v h = refl
slot-set_node_ne (n ∷ nodes) (suc i) zero v h = refl
slot-set_node_ne (n ∷ nodes) (suc i) (suc j) v h = slot-set_node_ne nodes i j v (λ e. h (ap suc e))

pub length-set_node :
    (nodes : List (Option Node)) (i : ℕ) (v : Option Node)
    → length (set_node nodes i v) ≡ length nodes
unfolding set_node
length-set_node [] i v = refl
length-set_node (n ∷ nodes) zero v = refl
length-set_node (n ∷ nodes) (suc i) v = omega (arith, length-set_node nodes i v)

pub slot-past : (nodes : List (Option Node)) (i : ℕ) → length nodes ≤ i → slot nodes i ≡ none
unfolding slot
slot-past [] i h = refl
slot-past (n ∷ nodes) zero h = absurd (omega arith)
slot-past (n ∷ nodes) (suc i) h = slot-past nodes i (omega arith)

pub slot-take :
    (nodes : List (Option Node)) (m i : ℕ) → i < m → slot (take m nodes) i ≡ slot nodes i
unfolding slot
slot-take nodes zero i h = absurd (omega arith)
slot-take [] (suc m) i h = refl
slot-take (n ∷ nodes) (suc m) zero h = refl
slot-take (n ∷ nodes) (suc m) (suc i) h = slot-take nodes m i (omega arith)
