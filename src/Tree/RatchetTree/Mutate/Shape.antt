-- ===== src/Tree/RatchetTree/Mutate/Shape.antt =====
-- The shape of the public tree, and the runs of changes that keep it.
use mls_go.Prelude.{
  ℕ, ◌+◌, ◌*◌, ◌%◌, ◌^◌, ◌<◌, ◌≡◌, refl, sym, subst, ◌∙◌, ◌⊎◌, inl, inr, Option, none, some, List,
  length, arith, ok,
}
use mls_go.Tree.LeafNode.{LeafNode}
use mls_go.Tree.ParentNode.{ParentNode}
use mls_go.Tree.Node.{Node}
use mls_go.Tree.RatchetTree.{RatchetTree, slot}
use mls_go.Tree.RatchetTree.Mutate.{
  update_leaf, remove_leaf, add_leaf, mark_unmerged, leaf_slot, blank,
}
use mls_go.Tree.RatchetTree.Mutate.Complete.{IsComplete}
use mls_go.Tree.RatchetTree.Mutate.Unmerged.{IsSorted, insert_unmerged-IsSorted}
use mls_go.Tree.RatchetTree.Mutate.Change.{Changed}
use mls_go.Tree.RatchetTree.Mutate.Leaves.{update_leaf-Changed, remove_leaf-Changed}
use mls_go.Tree.RatchetTree.Mutate.Joins.{add_leaf-Added}

-- What a slot may hold if it is not blank: a leaf alone at an even index, and a parent alone, whose
-- unmerged leaves are sorted, at an odd one.
abbrev pub Fits : ℕ → Option Node → Type 0
Fits j none = Unit {0}
Fits j (some n) =
    ((j % 2 ≡ 0) × ((l : LeafNode) × (n.leaf ≡ some l)) × (n.parent ≡ none))
    ⊎ ((j % 2 ≡ 1)
        × (n.leaf ≡ none)
        × ((p : ParentNode) × (n.parent ≡ some p) × IsSorted p.unmerged_leaves))

mark_unmerged-Fits : (leaf j : ℕ) (o : Option Node) → Fits j o → Fits j (mark_unmerged leaf o)
unfolding mark_unmerged
mark_unmerged-Fits leaf j none h = tt
mark_unmerged-Fits leaf j (some n) (inl (even, a_leaf, no_parent)) =
    rw no_parent (inl (even, a_leaf, no_parent))
mark_unmerged-Fits leaf j (some n) (inr (odd, no_leaf, (p, is, sorted))) =
    rw is (inr (odd, no_leaf, (_, refl, insert_unmerged-IsSorted leaf p.unmerged_leaves sorted)))

Changed-Fits :
    (change : Option Node → Option Node) (n i j : ℕ) (v : Option Node)
    (before after : List (Option Node))
    → Changed change n i v before after j
    → Fits i v
    → Fits j (change (slot before j))
    → Fits j (slot before j)
    → Fits j (slot after j)
Changed-Fits change n i j v before after (inl (same, h)) new up old =
    subst (Fits j) (sym h) (subst (λ (i : ℕ). Fits i v) (sym same) new)
Changed-Fits change n i j v before after (inr (inl (a, h))) new up old = subst (Fits j) (sym h) up
Changed-Fits change n i j v before after (inr (inr (other, outside, h))) new up old =
    subst (Fits j) (sym h) old

-- A complete tree in which every slot holds what it may.
pub record IsShaped (t : RatchetTree) : Type 0 where
  pub complete : IsComplete (length t.nodes)
  pub fits : (j : ℕ) → Fits j (slot t.nodes j)

-- A call that succeeds.
pub data Step (t : RatchetTree) : RatchetTree → Type 0 where
  updated :
      {t' : RatchetTree} (leaf : ℕ) (ln : LeafNode)
      → leaf < 2 ^ 31
      → update_leaf t leaf ln ≡ ok t'
      → Step t t'
  removed : {t' : RatchetTree} (leaf : ℕ) → leaf < 2 ^ 31 → remove_leaf t leaf ≡ ok t' → Step t t'
  added : {t' : RatchetTree} (leaf : ℕ) (ln : LeafNode) → add_leaf t ln ≡ ok (t', leaf) → Step t t'

-- Calls one after another, each on a tree of fewer than 2^28 leaves.
pub data Run (t : RatchetTree) : RatchetTree → Type 0 where
  start : Run t t
  next : {u v : RatchetTree} → Run t u → length u.nodes + 1 < 2 ^ 29 → Step u v → Run t v

ok_same {ℓ} : {A : Type ℓ} {a b : A} → ok a ≡ ok b → a ≡ b
ok_same h = cc h

update_in_range :
    (t t' : RatchetTree) (leaf : ℕ) (ln : LeafNode)
    → leaf < 2 ^ 31
    → length t.nodes < 2 ^ 30
    → update_leaf t leaf ln ≡ ok t'
    → 2 * leaf < length t.nodes
unfolding update_leaf
update_in_range t t' leaf ln word small h = ground arith

remove_in_range :
    (t t' : RatchetTree) (leaf : ℕ)
    → leaf < 2 ^ 31
    → length t.nodes < 2 ^ 30
    → remove_leaf t leaf ≡ ok t'
    → 2 * leaf < length t.nodes
unfolding remove_leaf
remove_in_range t t' leaf word small h = ground arith

leaf_slot-Fits : (leaf : ℕ) (ln : LeafNode) → Fits (2 * leaf) (leaf_slot ln)
leaf_slot-Fits leaf ln = inl (omega arith, (ln, refl), refl)

-- A change of any kind keeps the shape, on a tree of fewer than 2^28 leaves.
pub Step-IsShaped :
    (t t' : RatchetTree) → IsShaped t → length t.nodes + 1 < 2 ^ 29 → Step t t' → IsShaped t'
Step-IsShaped t t' shape small (updated leaf ln word h) =
    let inside = update_in_range t t' leaf ln word (omega arith) h in
    record {
      complete =
          (let (t2, is, wide, c) =
              update_leaf-Changed t leaf 0 ln shape.complete (omega arith) inside in
            let same : t2 ≡ t' = ok_same (sym is ∙ h) in
            subst (λ (u : RatchetTree). IsComplete (length u.nodes)) same
              (subst IsComplete (sym wide) shape.complete));
      fits = λ j.
          (let (t2, is, wide, c) =
              update_leaf-Changed t leaf j ln shape.complete (omega arith) inside in
            let same : t2 ≡ t' = ok_same (sym is ∙ h) in
            subst (λ (u : RatchetTree). Fits j (slot u.nodes j)) same
              (Changed-Fits blank _ (2 * leaf) j (leaf_slot ln) t.nodes t2.nodes c
                (leaf_slot-Fits leaf ln) tt (shape.fits j)));
    }
Step-IsShaped t t' shape small (removed leaf word h) =
    let inside = remove_in_range t t' leaf word (omega arith) h in
    record {
      complete =
          (let (t2, is, full, less, c) =
              remove_leaf-Changed t leaf 0 shape.complete (omega arith) inside in
            let same : t2 ≡ t' = ok_same (sym is ∙ h) in
            subst (λ (u : RatchetTree). IsComplete (length u.nodes)) same full);
      fits = λ j.
          (let (t2, is, full, less, c) =
              remove_leaf-Changed t leaf j shape.complete (omega arith) inside in
            let same : t2 ≡ t' = ok_same (sym is ∙ h) in
            subst (λ (u : RatchetTree). Fits j (slot u.nodes j)) same
              (Changed-Fits blank _ (2 * leaf) j none t.nodes t2.nodes c tt tt (shape.fits j)));
    }
Step-IsShaped t t' shape small (added leaf ln h) = record {
  complete =
      (let (t2, m, is, (full, wider, inside, free, least, c, marked)) =
          add_leaf-Added t ln 0 shape.complete small in
        let same : (t2, m) ≡ (t', leaf) = ok_same (sym is ∙ h) in
        subst (λ (u : RatchetTree × ℕ). IsComplete (length u.0.nodes)) same full);
  fits = λ j.
      (let (t2, m, is, (full, wider, inside, free, least, c, marked)) =
          add_leaf-Added t ln j shape.complete small in
        let same : (t2, m) ≡ (t', leaf) = ok_same (sym is ∙ h) in
        subst (λ (u : RatchetTree × ℕ). Fits j (slot u.0.nodes j)) same
          (Changed-Fits (mark_unmerged m) _ (2 * m) j (leaf_slot ln) t.nodes t2.nodes c
            (leaf_slot-Fits m ln) (mark_unmerged-Fits m j (slot t.nodes j) (shape.fits j))
            (shape.fits j)));
}

-- Every run of successful calls of UpdateLeaf, RemoveLeaf and AddLeaf, each on a tree of fewer
-- than 2^28 leaves and with a leaf index below 2^31, leaves a tree of complete width in which
-- each node that is not blank has a leaf and no parent at an even index, and at an odd index no
-- leaf and a parent whose unmerged leaves are sorted, if it starts from one.
pub Run-IsShaped : (t t' : RatchetTree) → IsShaped t → Run t t' → IsShaped t'
Run-IsShaped t t' shape start = shape
Run-IsShaped t t' shape (next {u = u} run small step) =
    Step-IsShaped u t' (Run-IsShaped t u shape run) small step
