-- ===== src/Tree/RatchetTree/Mutate/Complete.antt =====
-- The lengths of the node arrays: of complete trees, after `fullWidth` fills them up.
use mls_go.Prelude.{
  ℕ, zero, suc, ◌+◌, ◌-◌, ◌*◌, ◌%◌, ◌^◌, ◌≤◌, ◌<◌, ◌≡◌, refl, ap, sym, ◌∙◌, inl, inr, Option, none,
  List, [], ◌∷◌, ◌++◌, length, take, replicate, arith, lt_or_ge, length-append, length-replicate,
  length-take,
}
use mls_go.Tree.Math.Steps.{double, pow_le}
use mls_go.Tree.Node.{Node}
use mls_go.Tree.RatchetTree.{slot, full_width, full_width_loop}
use mls_go.Tree.RatchetTree.FullWidth.{full_width-bounds}
use mls_go.Tree.RatchetTree.Mutate.{pad, trim, trim_loop, grow}
use mls_go.Tree.RatchetTree.Mutate.Slots.{slot-take, slot-past}

-- The width of a complete tree.
abbrev pub IsComplete : ℕ → Type 0
IsComplete w = (k : ℕ) × (w + 1 ≡ 2 * 2 ^ k)

full_width_loop-IsComplete :
    (f n w : ℕ) → n < 2 ^ 31 → IsComplete w → IsComplete (full_width_loop f n w)
unfolding full_width_loop
full_width_loop-IsComplete zero n w h c = c
full_width_loop-IsComplete (suc f) n w h (k, e) = elim (lt_or_ge w n) [
  | inr done ↦ (k, ground arith)
  | inl more ↦
      let (k', e') =
        full_width_loop-IsComplete f n ((2 * w + 1) % 2 ^ 32) h (suc k, omega (arith, double k)) in
      (k', ground (arith, e'))
]

full_width-IsComplete : (n : ℕ) → n < 2 ^ 31 → IsComplete (full_width n)
unfolding full_width
full_width-IsComplete n h = full_width_loop-IsComplete 32 n 1 h (0, refl)

pub length-pad :
    (nodes : List (Option Node))
    → 0 < length nodes
    → length nodes < 2 ^ 31
    → length (pad nodes) ≡ full_width (length nodes)
unfolding pad
length-pad nodes h small =
    let same : length nodes % 2 ^ 32 ≡ length nodes = omega arith in
    let missing = full_width (length nodes % 2 ^ 32) - length nodes in
    length-append nodes (replicate missing none)
    ∙ ap (λ (t : ℕ). length nodes + t) (length-replicate missing none)
    ∙ omega (arith, full_width-bounds (length nodes) h small, ap full_width same)

pub pad-IsComplete :
    (nodes : List (Option Node))
    → 0 < length nodes
    → length nodes < 2 ^ 31
    → IsComplete (length (pad nodes))
pad-IsComplete nodes h small =
    let (k, e) = full_width-IsComplete (length nodes) small in
    (k, omega (arith, length-pad nodes h small))

slot-replicate : (m j : ℕ) → slot (replicate m none) j ≡ none
unfolding slot
slot-replicate zero j = refl
slot-replicate (suc m) zero = refl
slot-replicate (suc m) (suc j) = slot-replicate m j

slot-blanks :
    (nodes : List (Option Node)) (m j : ℕ) → slot (nodes ++ replicate m none) j ≡ slot nodes j
unfolding slot
slot-blanks [] m j = slot-replicate m j
slot-blanks (n ∷ nodes) m zero = refl
slot-blanks (n ∷ nodes) m (suc j) = slot-blanks nodes m j

-- The nodes that are filled in are blank.
pub slot-pad : (nodes : List (Option Node)) (j : ℕ) → slot (pad nodes) j ≡ slot nodes j
unfolding pad
slot-pad nodes j = slot-blanks nodes (full_width (length nodes % 2 ^ 32) - length nodes) j

slot-two : (nodes : List (Option Node)) (j : ℕ) → slot (nodes ++ none ∷ none ∷ []) j ≡ slot nodes j
slot-two nodes j = slot-blanks nodes 2 j

pub slot-grow : (nodes : List (Option Node)) (j : ℕ) → slot (grow nodes) j ≡ slot nodes j
unfolding grow
slot-grow nodes j = slot-pad (nodes ++ none ∷ none ∷ []) j ∙ slot-two nodes j

pub grow-IsComplete :
    (nodes : List (Option Node)) → length nodes < 2 ^ 30 → IsComplete (length (grow nodes))
unfolding grow
grow-IsComplete nodes h =
    pad-IsComplete (nodes ++ none ∷ none ∷ [])
      (omega (arith, length-append nodes (none ∷ none ∷ [])))
      (omega (arith, length-append nodes (none ∷ none ∷ [])))

-- There is room after growing.
pub length-grow :
    (nodes : List (Option Node))
    → length nodes < 2 ^ 29
    → (length nodes + 2 ≤ length (grow nodes)) × (length (grow nodes) < 2 * (length nodes + 2))
unfolding grow
length-grow nodes h =
    let longer : length (nodes ++ none ∷ none ∷ []) ≡ length nodes + 2 =
      length-append nodes (none ∷ none ∷ []) in
    let (low, high) =
      full_width-bounds (length (nodes ++ none ∷ none ∷ [])) (omega arith) (omega arith) in
    let filled = length-pad (nodes ++ none ∷ none ∷ []) (omega arith) (omega arith) in
    (omega arith, omega arith)

-- What is cut off is blank.
pub slot-trim_loop :
    (nodes : List (Option Node)) (e j : ℕ)
    → 0 < e
    → trim_loop nodes e ≤ j
    → j < e
    → slot nodes j ≡ none
unfolding trim_loop
slot-trim_loop nodes zero j p h s = absurd (omega arith)
slot-trim_loop nodes (suc zero) j p h s = absurd (omega arith)
slot-trim_loop nodes (suc (suc e)) j p h s = elim (lt_or_ge j (suc e)) [
  | inl before ↦ ground (arith, slot-trim_loop nodes (suc e) j)
  | inr last ↦ let here : j ≡ suc e = omega arith in ground arith
]

pub trim_loop-bounds :
    (nodes : List (Option Node)) (e : ℕ) → 0 < e → (0 < trim_loop nodes e) × (trim_loop nodes e ≤ e)
unfolding trim_loop
trim_loop-bounds nodes zero h = absurd (omega arith)
trim_loop-bounds nodes (suc zero) h = omega arith
trim_loop-bounds nodes (suc (suc e)) h = ground (arith, trim_loop-bounds nodes (suc e))

cut :
    (nodes : List (Option Node)) (j : ℕ)
    → 0 < length nodes
    → trim_loop nodes (length nodes) ≤ j
    → slot nodes j ≡ none
cut nodes j h past = elim (lt_or_ge j (length nodes)) [
  | inl inside ↦ slot-trim_loop nodes (length nodes) j h past inside
  | inr out ↦ slot-past nodes j out
]

-- Cutting the blank nodes off leaves every slot as it was.
pub slot-trim :
    (nodes : List (Option Node)) (j : ℕ) → 0 < length nodes → slot (trim nodes) j ≡ slot nodes j
unfolding trim
slot-trim nodes j h =
    let kept = trim_loop nodes (length nodes) in
    elim (lt_or_ge j kept) [
      | inl before ↦ slot-take nodes kept j before
      | inr past ↦
          slot-past (take kept nodes) j (omega (arith, length-take kept nodes))
          ∙ sym (cut nodes j h past)
    ]

pub length-trim :
    (nodes : List (Option Node))
    → 0 < length nodes
    → (0 < length (trim nodes)) × (length (trim nodes) ≤ length nodes)
unfolding trim
length-trim nodes h = omega (
  arith,
  length-take (trim_loop nodes (length nodes)) nodes,
  trim_loop-bounds nodes (length nodes) h,
)

complete_scale : (a b : ℕ) → 2 ^ a < 2 * 2 ^ b → 2 ^ a ≤ 2 ^ b
complete_scale a b h = elim (lt_or_ge b a) [
  | inl more ↦ absurd (omega (arith, double b, pow_le (suc b) a more))
  | inr less ↦ pow_le a b less
]

-- A tree that is cut and filled up again is complete, and no wider than before.
pub repadded :
    (nodes : List (Option Node))
    → 0 < length nodes
    → length nodes < 2 ^ 30
    → IsComplete (length nodes)
    → IsComplete (length (pad (trim nodes))) × (length (pad (trim nodes)) ≤ length nodes)
repadded nodes h small (b, e) =
    let (some_left, less) = length-trim nodes h in
    let (a, e') = pad-IsComplete (trim nodes) some_left (omega arith) in
    let filled = length-pad (trim nodes) some_left (omega arith) in
    let (low, high) = full_width-bounds (length (trim nodes)) some_left (omega arith) in
    ((a, e'), omega (arith, complete_scale a b (omega arith)))
