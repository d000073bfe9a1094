-- ===== src/Tree/RatchetTree/Mutate/Joins.antt =====
-- What AddLeaf does to each slot, and the tree and the index it returns.
use mls_go.Prelude.{
  ℕ, ◌+◌, ◌*◌, ◌/◌, ◌^◌, ◌≤◌, ◌<◌, ◌≡◌, ◌≢◌, refl, sym, ap, subst, ◌∙◌, ◌⊎◌, inl, inr, Option, none,
  some, List, length, arith, Option-cases, ok,
}
use mls_go.Tree.LeafNode.{LeafNode}
use mls_go.Tree.Node.{Node}
use mls_go.Tree.RatchetTree.{RatchetTree, slot, leaf_count}
use mls_go.Tree.RatchetTree.Mutate.{
  leaf_slot, add_leaf, place_leaf, find_blank, grow, mark_unmerged,
}
use mls_go.Tree.RatchetTree.Mutate.Slots.{slot-past}
use mls_go.Tree.RatchetTree.Mutate.Complete.{IsComplete, slot-grow, grow-IsComplete, length-grow}
use mls_go.Tree.RatchetTree.Mutate.Change.{Changed, leaves_of, Changed-slots}
use mls_go.Tree.RatchetTree.Mutate.Unmerged.{Marked, mark_unmerged-Marked}
use mls_go.Tree.RatchetTree.Mutate.FindBlank.{IsLeast, find_blank-IsLeast, find_blank-full}
use mls_go.Tree.RatchetTree.Mutate.Leaves.{walked, length-walked}

-- What AddLeaf promises of the tree and the index that it returns.
abbrev pub Added : RatchetTree → LeafNode → ℕ → RatchetTree → ℕ → Type 0
Added t ln j t' leaf =
    IsComplete (length t'.nodes)
    × (length t.nodes ≤ length t'.nodes)
    × (2 * leaf < length t'.nodes)
    × (slot t.nodes (2 * leaf) ≡ none)
    × ((leaf ≤ j) ⊎ (slot t.nodes (2 * j) ≢ none))
    × Changed (mark_unmerged leaf) (leaf_count t') (2 * leaf) (leaf_slot ln) t.nodes t'.nodes j
    × Marked leaf (slot t.nodes j) (mark_unmerged leaf (slot t.nodes j))

-- Slots of the array before it grew.
same_before :
    (change : Option Node → Option Node) (n i : ℕ) (v : Option Node)
    (before before' after : List (Option Node)) (j : ℕ)
    → slot before' j ≡ slot before j
    → Changed change n i v before' after j
    → Changed change n i v before after j
same_before change n i v before before' after j e (inl h) = inl h
same_before change n i v before before' after j e (inr (inl (a, h))) =
    inr (inl (a, h ∙ ap change e))
same_before change n i v before before' after j e (inr (inr (other, outside, h))) =
    inr (inr (other, outside, h ∙ e))

halved : (m : ℕ) → 2 * m / 2 ≡ m
halved m = omega arith

-- The leaf is placed in an array with the slots of the tree.
placed :
    (t : RatchetTree) (ln : LeafNode) (nodes : List (Option Node)) (j m : ℕ)
    → ((i : ℕ) → slot nodes i ≡ slot t.nodes i)
    → IsComplete (length nodes)
    → length nodes + 1 < 2 ^ 30
    → length t.nodes ≤ length nodes
    → IsLeast nodes m
    → (t' : RatchetTree) × (leaf : ℕ) × (place_leaf nodes ln (2 * m) ≡ (t', leaf))
      × Added t ln j t' leaf
unfolding place_leaf
placed t ln nodes j m same full small wider (inside, free, before) =
    let result = walked (mark_unmerged m) nodes (2 * m) (leaf_slot ln) in
    let wide = length-walked (mark_unmerged m) nodes (2 * m) (leaf_slot ln) in
    (
      record { nodes = result },
      m,
      ap
          (λ (leaf : ℕ).
            (record { nodes = walked (mark_unmerged leaf) nodes (2 * m) (leaf_slot ln) }, leaf))
          (halved m),
      (
        subst IsComplete (sym wide) full,
        subst (λ (w : ℕ). length t.nodes ≤ w) (sym wide) wider,
        subst (λ (w : ℕ). 2 * m < w) (sym wide) inside,
        sym (same (2 * m)) ∙ free,
        elim (before j) [ inl h ↦ inl h | inr h ↦ inr (λ e. h (same (2 * j) ∙ e)) ],
        same_before (mark_unmerged m) _ _ _ _ _ _ j (same j) (
            rw (ap leaves_of wide)
              (Changed-slots (mark_unmerged m) m j (leaf_slot ln) nodes full small inside)),
        mark_unmerged-Marked m (slot t.nodes j),
      ),
    )

-- A blank leaf is there after growing.
grown_has_room :
    (nodes : List (Option Node))
    → IsComplete (length nodes)
    → length nodes + 1 < 2 ^ 29
    → find_blank (grow nodes) 0 ≢ none
grown_has_room nodes (k, e) small stop =
    let (more, less) = length-grow nodes (omega arith) in
    let half : 2 * 2 ^ k ≡ length nodes + 1 = omega arith in
    find_blank-full (grow nodes) 0 (2 ^ k) stop (omega arith)
      (slot-grow nodes (2 * 2 ^ k) ∙ slot-past nodes (2 * 2 ^ k) (omega arith))

grown_small :
    (w r : ℕ) → IsComplete w → IsComplete r → w + 1 < 2 ^ 29 → r < 2 * (w + 2) → r + 1 < 2 ^ 30
grown_small w r (a, e) (b, e') small less = omega arith

grown :
    (nodes : List (Option Node))
    → IsComplete (length nodes)
    → length nodes + 1 < 2 ^ 29
    → IsComplete (length (grow nodes))
      × (length nodes ≤ length (grow nodes))
      × (length (grow nodes) + 1 < 2 ^ 30)
grown nodes full small =
    let (more, less) = length-grow nodes (omega arith) in
    let complete = grow-IsComplete nodes (omega arith) in
    (
      complete,
      omega arith,
      grown_small (length nodes) (length (grow nodes)) full complete small less,
    )

found :
    (nodes : List (Option Node)) (i : ℕ)
    → find_blank nodes 0 ≡ some i
    → (m : ℕ) × (i ≡ 2 * m) × IsLeast nodes m
found nodes i h = let (m, e, least) = find_blank-IsLeast nodes 0 i h in (m, omega arith, least)

placed_after_growing :
    (t : RatchetTree) (ln : LeafNode) (i : ℕ)
    → find_blank t.nodes 0 ≡ none
    → find_blank (grow t.nodes) 0 ≡ some i
    → add_leaf t ln ≡ ok (place_leaf (grow t.nodes) ln i)
unfolding add_leaf
placed_after_growing t ln i none_free free = rw (add_leaf, none_free, free)

placed_now :
    (t : RatchetTree) (ln : LeafNode) (i : ℕ)
    → find_blank t.nodes 0 ≡ some i
    → add_leaf t ln ≡ ok (place_leaf t.nodes ln i)
unfolding add_leaf
placed_now t ln i free = rw (add_leaf, free)

-- On a tree of complete width with fewer than 2^28 leaves AddLeaf succeeds, also when it has to
-- grow the tree: the width stays complete, the leaf stands at the leftmost blank leaf, each node
-- above it holds what it held with the leaf once more among its unmerged leaves, and every other
-- slot is as it was.
pub add_leaf-Added :
    (t : RatchetTree) (ln : LeafNode) (j : ℕ)
    → IsComplete (length t.nodes)
    → length t.nodes + 1 < 2 ^ 29
    → (t' : RatchetTree) × (leaf : ℕ) × (add_leaf t ln ≡ ok (t', leaf)) × Added t ln j t' leaf
add_leaf-Added t ln j full small = elim (Option-cases (find_blank t.nodes 0)) [
  | inr (i, free) ↦
      let (m, e, least) = found t.nodes i free in
      let (t', leaf, is, added) =
        placed t ln t.nodes j m (λ i. refl) full (omega arith) (omega arith) least in
      (t', leaf, placed_now t ln i free ∙ ap ok (ap (place_leaf t.nodes ln) e ∙ is), added)
  | inl none_free ↦ elim (Option-cases (find_blank (grow t.nodes) 0)) [
    | inl stop ↦ absurd (grown_has_room t.nodes full small stop)
    | inr (i, free) ↦
        let (m, e, least) = found (grow t.nodes) i free in
        let (complete, wider, short) = grown t.nodes full small in
        let (t', leaf, is, added) =
          placed t ln (grow t.nodes) j m (slot-grow t.nodes) complete short wider least in
        (
          t',
          leaf,
          placed_after_growing t ln i none_free free
              ∙ ap ok (ap (place_leaf (grow t.nodes) ln) e ∙ is),
          added,
        )
  ]
]
