-- ===== src/Tree/Math/Spine.antt =====
-- mls/tree/math.go: the walk of Right down the left spine, and the walk of Parent back up from its end.
use mls_go.Prelude.{
  ℕ, zero, suc, ◌+◌, ◌*◌, ◌/◌, ◌^◌, ◌≤◌, ◌<◌, ◌≡◌, refl, sym, ap, subst, arith, inl, inr, ◌∙◌,
  lt_or_ge,
}
use mls_go.Prelude.Bits.{double_pow}
use mls_go.Tree.Math.{left_value, right_loop, parent_step, parent_loop}
use mls_go.Tree.Math.Coordinates.{node, node-bound}
use mls_go.Tree.Math.Steps.{double, pow_le, left-node, parent_step-node}

left_value-node : (k q : ℕ) → node (suc k) q < 2 ^ 31 → left_value (node (suc k) q) ≡ node k (2 * q)
unfolding left_value
left_value-node k q h = ground (arith, left-node k q h)

pub step_of_left : (k q : ℕ) → k < 31 → parent_step (node k (2 * q)) ≡ node (suc k) q
step_of_left k q h =
    let half : 2 * q / 2 ≡ q = omega arith in parent_step-node k (2 * q) h ∙ ap (node (suc k)) half

pub step_of_right : (k q : ℕ) → k < 31 → parent_step (node k (2 * q + 1)) ≡ node (suc k) q
step_of_right k q h =
    let half : (2 * q + 1) / 2 ≡ q = omega arith in
    parent_step-node k (2 * q + 1) h ∙ ap (node (suc k)) half

right_loop-stop : (g w r : ℕ) → r < w → right_loop g w r ≡ r
unfolding right_loop
right_loop-stop zero w r h = refl
right_loop-stop (suc g) w r h = ground arith

right_loop-next :
    (g w r r' : ℕ) → w ≤ r → left_value r ≡ r' → right_loop (suc g) w r ≡ right_loop g w r'
unfolding right_loop
right_loop-next g w r r' h e = ground (arith, ap (right_loop g w) e)

pub parent_loop-next :
    (f w p p' : ℕ) → w ≤ p → parent_step p ≡ p' → parent_loop (suc f) w p ≡ parent_loop f w p'
unfolding parent_loop
parent_loop-next f w p p' h e = ground (arith, ap (parent_loop f w) e)

-- What the walk down the left spine keeps: the walk up from there comes to `x`.
unfoldable pub Climbs : ℕ → ℕ → ℕ → ℕ → Type 0
Climbs i w p x = (f : ℕ) → i ≤ f → parent_loop f w p ≡ x

left-Climbs :
    (i w k q x : ℕ)
    → k < 31
    → w ≤ node (suc k) q
    → Climbs i w (parent_step (node (suc k) q)) x
    → Climbs (suc i) w (parent_step (node k (2 * q))) x
unfolding Climbs
left-Climbs i w k q x small out up zero h = absurd (omega arith)
left-Climbs i w k q x small out up (suc f) h =
    ap (parent_loop (suc f) w) (step_of_left k q small)
    ∙ parent_loop-next f w (node (suc k) q) _ out refl
    ∙ up f (omega arith)

-- The result of the walk down from `r`: a node of the tree, not on the far left, from which the walk up comes to `x`.
unfoldable pub Clamped : ℕ → ℕ → ℕ → ℕ → Type 0
Clamped a w r x =
    (k : ℕ) × (q : ℕ) × (r ≡ node k q)
    × (k < 31)
    × (0 < q)
    × (a ≤ r)
    × (r < w)
    × Climbs 32 w (parent_step r) x

stop-Clamped :
    (i k q a w x : ℕ)
    → i ≤ 32
    → k < 31
    → 0 < q
    → 2 * (q * 2 ^ k) ≡ a
    → node k q < w
    → Climbs i w (parent_step (node k q)) x
    → (g : ℕ) → Clamped a w (right_loop g w (node k q)) x
unfolding Clamped Climbs
stop-Clamped i k q a w x few small pos leaf inside up g =
    let stop = right_loop-stop g w (node k q) inside in
    (
      k,
      q,
      stop,
      small,
      pos,
      omega (arith, node-bound k q, pow_le 0 k (omega arith)),
      omega arith,
      λ f h. ap (λ (r : ℕ). parent_loop f w (parent_step r)) stop ∙ up f (omega arith),
    )

pub scaled : (q k : ℕ) → 2 * q * 2 ^ k ≡ 2 * (q * 2 ^ k)
scaled q k = grind arith

pub spine :
    (k g i q a w x : ℕ)
    → k ≤ g
    → i + k ≤ 32
    → k < 31
    → 0 < q
    → node k q < 2 ^ 31
    → 2 * (q * 2 ^ k) ≡ a
    → a < w
    → Climbs i w (parent_step (node k q)) x
    → Clamped a w (right_loop g w (node k q)) x
spine zero g i q a w x h few small pos top leaf low up =
    stop-Clamped i 0 q a w x (omega arith) small pos leaf (omega (arith, node-bound 0 q)) up g
spine (suc k) zero i q a w x h few small pos top leaf low up = absurd (omega arith)
spine (suc k) (suc g) i q a w x h few small pos top leaf low up =
    elim (lt_or_ge (node (suc k) q) w) [
      | inl inside ↦ stop-Clamped i (suc k) q a w x (omega arith) small pos leaf inside up (suc g)
      | inr out ↦
          subst (λ (r : ℕ). Clamped a w r x)
            (sym (right_loop-next g w (node (suc k) q) _ out (left_value-node k q top)))
            (spine k g (suc i) (2 * q) a w x (omega arith) (omega arith) (omega arith) (omega arith)
              (omega (
                arith,
                node-bound k (2 * q),
                node-bound (suc k) q,
                double k,
                double_pow q k,
                scaled q k,
              ))
              (omega (arith, double_pow q k, scaled q k)) low
              (left-Climbs i w k q x (omega arith) out up))
    ]
