-- ===== src/Tree/RatchetTree/Mutate/Path.antt =====
-- The walk from a node to the root.
use mls_go.Prelude.{
  ℕ, zero, suc, ◌+◌, ◌*◌, ◌/◌, ◌^◌, ◌≤◌, ◌<◌, ◌≡◌, ◌≢◌, refl, sym, ap, ◌∙◌, inl, inr, lt_or_ge,
  Option, none, some, arith, if◌then◌else◌, ◌==◌,
}
use mls_go.Tree.Math.{root, node_width, parent, parent_step, parent_loop}
use mls_go.Tree.Math.Coordinates.{node}
use mls_go.Tree.Math.Steps.{double, parent_step-node}
use mls_go.Tree.Math.Width.{root-node}
use mls_go.Tree.Math.Family.{
  parent-walk, below_root, parent_loop-stop, leftmost_in_range, parent_in_range,
}
use mls_go.Tree.Math.Spine.{parent_loop-next}

abbrev Above : ℕ → ℕ → ℕ → ℕ → ℕ → Type 0
Above f k l q w =
    (k' : ℕ) × (q' : ℕ) × (parent_loop f w (node k q) ≡ node k' q') × (k ≤ k') × (k' ≤ l)

-- Where the walk to the parent ends: at a node of the tree, and at a level above.
loop-none : (w p : ℕ) → parent_loop 0 w p ≡ p
unfolding parent_loop
loop-none w p = refl

stay : (f k l q w : ℕ) → parent_loop f w (node k q) ≡ node k q → k ≤ l → Above f k l q w
stay f k l q w e h = (k, q, e, omega arith, h)

-- Where the walk to the parent ends: at a node of the tree, and at a level above.
climb-node :
    (d f k l q w : ℕ) → d ≤ f → l ≡ d + k → l < 31 → 2 ^ l ≤ w → q < 2 ^ d → Above f k l q w
climb-node zero zero k l q w h e s low p = stay 0 k l q w (loop-none w (node k q)) (omega arith)
climb-node zero (suc f) k l q w h e s low p =
    stay (suc f) k l q w
      (parent_loop-stop (suc f) w (node k q) (leftmost_in_range k l q w (omega arith) low p))
      (omega arith)
climb-node (suc d) zero k l q w h e s low p = absurd (omega arith)
climb-node (suc d) (suc f) k l q w h e s low p = elim (lt_or_ge (node k q) w) [
  | inl here ↦ stay (suc f) k l q w (parent_loop-stop (suc f) w (node k q) here) (omega arith)
  | inr out ↦
      let (k', q', reached, up, below) =
        climb-node d f (suc k) l (q / 2) w (omega arith) (omega arith) s low
          (omega (arith, double d)) in
      (
        k',
        q',
        parent_loop-next f w (node k q) _ out (parent_step-node k q (omega arith)) ∙ reached,
        omega arith,
        below,
      )
]

same_some : {a b : ℕ} → some a ≡ some b → a ≡ b
same_some h = ground (arith, h)

-- A tree of `n` leaves with its root at level `l`.
pub record IsTree (n l : ℕ) : Type 0 where
  pub positive : 0 < n
  pub few : n < 2 ^ 29
  pub top : root n ≡ node l 0
  pub short : l < 31
  pub low : 2 ^ l ≤ node_width n
  pub high : node_width n < 2 * 2 ^ l

pub some-IsTree : (n : ℕ) → 0 < n → n < 2 ^ 29 → (l : ℕ) × IsTree n l
some-IsTree n h k =
    let (l, top, short, low, high) = root-node n h (omega arith) in
    (l, record { positive = h; few = k; top = top; short = short; low = low; high = high })

-- Parent goes to a node of the tree, at a level above and no higher than the root's.
pub parent-node :
    (n k q l : ℕ)
    → IsTree n l
    → node k q < node_width n
    → node k q ≢ root n
    → (k' : ℕ) × (q' : ℕ) × (parent (node k q) n ≡ some (node k' q'))
      × (k < k')
      × (k' ≤ l)
      × (node k' q' < node_width n)
parent-node n k q l tree inside other =
    let (p', found, near) = parent_in_range n (node k q) tree.positive tree.few inside other in
    let (d, level, p) = below_root k q l (omega arith) (λ same. other (omega arith)) in
    let (k', q', reached, up, below) =
      climb-node d 32 (suc k) l (q / 2) (node_width n) (omega arith) (omega arith) tree.short
        tree.low (omega (arith, double d)) in
    let up_to : parent (node k q) n ≡ some (node k' q') =
      parent-walk (node k q) n (node k' q') other
        (ap (parent_loop 32 (node_width n)) (parent_step-node k q (omega arith)) ∙ reached) in
    (k', q', up_to, omega arith, below, omega (arith, same_some (sym found ∙ up_to)))

taken : (x r : ℕ) (o : Option ℕ) → x ≡ r → (if x == r then none else o) ≡ none
taken x r o h = ground arith

pub parent-root : (n : ℕ) → parent (root n) n ≡ none
unfolding parent
parent-root n =
    taken (root n) (root n) (some (parent_loop 32 (node_width n) (parent_step (root n)))) refl

none-some : {a : ℕ} → none ≢ some a
none-some h = cc h

-- A node with a parent is not the root.
pub not_root : (n x p : ℕ) → parent x n ≡ some p → x ≢ root n
not_root n x p h same = none-some (sym (parent-root n) ∙ ap (λ (t : ℕ). parent t n) (sym same) ∙ h)

-- The nodes strictly above `x`.
pub data Ancestor (n p : ℕ) : ℕ → Type 0 where
  here : {x : ℕ} → parent x n ≡ some p → Ancestor n p x
  above : {x y : ℕ} → parent x n ≡ some y → Ancestor n p y → Ancestor n p x

-- A parent is at a level above its child, and is a node of the tree.
pub parent-above :
    (n l x p k q : ℕ)
    → IsTree n l
    → x ≡ node k q
    → x < node_width n
    → parent x n ≡ some p
    → (k' : ℕ) × (q' : ℕ) × (p ≡ node k' q') × (k < k') × (k' ≤ l) × (p < node_width n)
parent-above n l x p k q tree e inside h =
    let (k', q', up, higher, below, near) =
      parent-node n k q l tree (omega arith) (λ same. not_root n x p h (e ∙ same)) in
    let same : p ≡ node k' q' = same_some (sym h ∙ ap (λ (t : ℕ). parent t n) e ∙ up) in
    (k', q', same, higher, below, omega arith)

-- So is every ancestor.
pub ancestor-above :
    {n p x : ℕ} (l k q : ℕ)
    → IsTree n l
    → x ≡ node k q
    → x < node_width n
    → Ancestor n p x
    → (k' : ℕ) × (q' : ℕ) × (p ≡ node k' q') × (k < k') × (k' ≤ l) × (p < node_width n)
ancestor-above {n} {p} {x} l k q tree e inside (here h) = parent-above n l x p k q tree e inside h
ancestor-above {n} {p} {x} l k q tree e inside (above {y = y} h a) =
    let (k', q', e', up, below, near) = parent-above n l x y k q tree e inside h in
    let (k2, q2, e2, up2, below2, near2) = ancestor-above l k' q' tree e' near a in
    (k2, q2, e2, omega arith, below2, near2)
