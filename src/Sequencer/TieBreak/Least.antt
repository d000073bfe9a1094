-- ===== src/Sequencer/TieBreak/Least.antt =====
-- The loop keeps a candidate whose key is least.
use mls_go.Prelude.{
  ◌≡◌, ◌≢◌, refl, sym, subst, ◌⊎◌, inl, inr, true, false, Bool-cases, Option, none, some, List, [],
  ◌∷◌, arith,
}
use mls_go.Syntax.Varint.{Bytes}
use mls_go.Cipher.{Suite}
use mls_go.Sequencer.TieBreak.{bytes_less, key_of, canonical_loop, canonical_commit}

-- bytes_less is a strict total order
pub antisymmetric : (a b : Bytes) → bytes_less a b ≡ false → bytes_less b a ≡ false → a ≡ b
unfolding bytes_less
antisymmetric [] [] h k = refl
antisymmetric [] (y ∷ b) h k = cc
antisymmetric (x ∷ a) [] h k = cc
antisymmetric (x ∷ a) (y ∷ b) h k = ground (arith, antisymmetric a b)

not_less_trans :
    (a b c : Bytes) → bytes_less a b ≡ false → bytes_less b c ≡ false → bytes_less a c ≡ false
unfolding bytes_less
not_less_trans a b [] h k = refl
not_less_trans [] [] (z ∷ c) h k = k
not_less_trans (x ∷ a) [] (z ∷ c) h k = cc
not_less_trans [] (y ∷ b) (z ∷ c) h k = cc
not_less_trans (x ∷ a) (y ∷ b) (z ∷ c) h k = ground (arith, not_less_trans a b c)

pub irreflexive : (a : Bytes) → bytes_less a a ≡ false
unfolding bytes_less
irreflexive [] = refl
irreflexive (x ∷ a) = ground (arith, irreflexive a)

asymmetric : (a b : Bytes) → bytes_less a b ≡ true → bytes_less b a ≡ false
unfolding bytes_less
asymmetric a [] h = cc
asymmetric [] (y ∷ b) h = refl
asymmetric (x ∷ a) (y ∷ b) h = ground (arith, asymmetric a b)

abbrev pub Among : Option Bytes → List (Option Bytes) → Type 0
Among c [] = ⊥
Among c (d ∷ candidates) = (c ≡ d) ⊎ Among c candidates

-- A candidate whose key no candidate's is below.
abbrev pub IsLeast : Suite → List (Option Bytes) → Option Bytes → Type 0
IsLeast suite candidates r =
    Among r candidates
    × ((c : Option Bytes)
        → Among c candidates
        → bytes_less (key_of suite c) (key_of suite r) ≡ false)

replaced :
    (suite : Suite) (best c : Option Bytes) (candidates : List (Option Bytes))
    → bytes_less (key_of suite c) (key_of suite best) ≡ true
    → canonical_loop suite best (key_of suite best) (c ∷ candidates)
      ≡ canonical_loop suite c (key_of suite c) candidates
unfolding canonical_loop
replaced suite none c candidates less = refl
replaced suite (some best) c candidates less = rw (canonical_loop, less)

stays :
    (suite : Suite) (best c : Option Bytes) (candidates : List (Option Bytes))
    → best ≢ none
    → bytes_less (key_of suite c) (key_of suite best) ≡ false
    → canonical_loop suite best (key_of suite best) (c ∷ candidates)
      ≡ canonical_loop suite best (key_of suite best) candidates
unfolding canonical_loop
stays suite none c candidates there kept = absurd (there refl)
stays suite (some best) c candidates there kept = rw (canonical_loop, kept)

pub canonical_loop-IsLeast :
    (suite : Suite) (best : Option Bytes) (candidates : List (Option Bytes))
    → ¬ Among none (best ∷ candidates)
    → IsLeast suite (best ∷ candidates) (canonical_loop suite best (key_of suite best) candidates)
unfolding canonical_loop
canonical_loop-IsLeast suite best [] no_nil = (
  inl refl,
  λ c m. elim m [
    | inl same ↦ rw same (irreflexive (key_of suite best))
    | inr none_left ↦ absurd none_left
  ],
)
canonical_loop-IsLeast suite best (c ∷ candidates) no_nil =
    elim (Bool-cases (bytes_less (key_of suite c) (key_of suite best))) [
      | inl less ↦
          let (member, least) = canonical_loop-IsLeast suite c candidates (λ m. no_nil (inr m)) in
          subst (IsLeast suite (best ∷ c ∷ candidates))
            (sym (replaced suite best c candidates less))
            (
              inr member,
              λ d m. elim m [
                | inl same ↦ rw same (
                    not_less_trans (key_of suite best) (key_of suite c) _
                      (asymmetric (key_of suite c) (key_of suite best) less) (least c (inl refl)))
                | inr m ↦ least d m
              ],
            )
      | inr kept ↦
          let (member, least) =
            canonical_loop-IsLeast suite best candidates
              (λ m. no_nil (elim m [ inl same ↦ inl same | inr m ↦ inr (inr m) ])) in
          subst (IsLeast suite (best ∷ c ∷ candidates))
            (sym (stays suite best c candidates (λ e. no_nil (inl (sym e))) kept))
            (
              elim member [ inl same ↦ inl same | inr m ↦ inr (inr m) ],
              λ d m. elim m [
                | inl same ↦ least d (inl same)
                | inr (inl same) ↦ rw same (
                    not_less_trans (key_of suite c) (key_of suite best) _ kept
                      (least best (inl refl)))
                | inr (inr m) ↦ least d (inr m)
              ],
            )
    ]

pub canonical_commit-IsLeast :
    (suite : Suite) (c : Option Bytes) (candidates : List (Option Bytes))
    → ¬ Among none (c ∷ candidates)
    → IsLeast suite (c ∷ candidates) (canonical_commit suite (c ∷ candidates))
unfolding canonical_commit canonical_loop
canonical_commit-IsLeast suite c candidates no_nil =
    canonical_loop-IsLeast suite c candidates no_nil
