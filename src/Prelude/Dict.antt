-- ===== src/Prelude/Dict.antt =====
-- Go maps with keys that have an equality test, as association lists. The modelled code never
-- ranges over such a map, so the order of entries is not observable.
use Prim.Native.Nat.{ℕ}
use mathlib.Core.Path.{◌≡◌, refl, subst}
use mathlib.Core.Logic.{◌↔◌, ◌≢◌}
use mathlib.Core.Bool.{Bool, true, false, ◌&&◌}
use mathlib.Core.Option.{Option, none, some}
use mathlib.Core.List.{List, [], ◌∷◌}
use native.Mathlib.Omega.{arith}
use mls_go.Prelude.Tests.{if◌then◌else◌, ◌==◌, ==_iff}

pub record Eq (A : Type 0) : Type 0 where
  pub beq : A → A → Bool
  pub beq_iff : (a b : A) → (beq a b ≡ true) ↔ (a ≡ b)

abbrev nat_beq : ℕ → ℕ → Bool
nat_beq a b = a == b

instance abbrev pub nat_eq : Eq ℕ
nat_eq = record { beq = nat_beq; beq_iff = ==_iff }

-- bytes.Equal, and equality of strings that are made of bytes
abbrev pub bytes_equal : List ℕ → List ℕ → Bool
bytes_equal [] [] = true
bytes_equal [] (y ∷ ys) = false
bytes_equal (x ∷ xs) [] = false
bytes_equal (x ∷ xs) (y ∷ ys) = (x == y) && bytes_equal xs ys

pub bytes_equal_sound : (a b : List ℕ) → bytes_equal a b ≡ true → a ≡ b
bytes_equal_sound [] [] h = refl
bytes_equal_sound [] (y ∷ ys) h = cc
bytes_equal_sound (x ∷ xs) [] h = cc
bytes_equal_sound (x ∷ xs) (y ∷ ys) h = ground (arith, bytes_equal_sound xs ys)

pub bytes_equal_self : (a : List ℕ) → bytes_equal a a ≡ true
bytes_equal_self [] = refl
bytes_equal_self (x ∷ xs) = ground (arith, bytes_equal_self xs)

pub bytes_equal_iff : (a b : List ℕ) → (bytes_equal a b ≡ true) ↔ (a ≡ b)
bytes_equal_iff a b =
    (bytes_equal_sound a b, λ e. subst (λ t. bytes_equal a t ≡ true) e (bytes_equal_self a))

instance abbrev pub bytes_eq : Eq (List ℕ)
bytes_eq = record { beq = bytes_equal; beq_iff = bytes_equal_iff }

abbrev pub Dict : Type 0 → Type 0 → Type 0
Dict K V = List (K × V)

module _ {K V : Type 0} ⦃e : Eq K⦄ where
  -- `v, ok := m[k]`
  unfoldable pub lookup : K → Dict K V → Option V
  lookup k [] = none
  lookup k ((j, v) ∷ m) = if e.beq j k then some v else lookup k m

  -- `m[k] = v`
  unfoldable pub insert : K → V → Dict K V → Dict K V
  insert k v [] = (k, v) ∷ []
  insert k v ((j, w) ∷ m) = if e.beq j k then (k, v) ∷ m else (j, w) ∷ insert k v m

  -- `delete(m, k)`
  unfoldable pub delete : K → Dict K V → Dict K V
  delete k [] = []
  delete k ((j, w) ∷ m) = let rest = delete k m in if e.beq j k then rest else (j, w) ∷ rest

  pub lookup-insert :
      (k j : K) (v : V) (m : Dict K V)
      → lookup j (insert k v m) ≡ (if e.beq k j then some v else lookup j m)
  unfolding lookup insert
  lookup-insert k j v [] = refl
  lookup-insert k j v ((i, w) ∷ m) =
      ground (arith, e.beq_iff k j, e.beq_iff i k, e.beq_iff i j, lookup-insert k j v m)

  pub lookup-insert_self : (k : K) (v : V) (m : Dict K V) → lookup k (insert k v m) ≡ some v
  lookup-insert_self k v m = rw lookup-insert (ground (arith, e.beq_iff k k))

  pub lookup-insert_ne :
      (k j : K) (v : V) (m : Dict K V) → k ≢ j → lookup j (insert k v m) ≡ lookup j m
  lookup-insert_ne k j v m h = rw lookup-insert (ground (arith, e.beq_iff k j))

  pub lookup-delete :
      (k j : K) (m : Dict K V) → lookup j (delete k m) ≡ (if e.beq k j then none else lookup j m)
  unfolding lookup delete
  lookup-delete k j [] = ground arith
  lookup-delete k j ((i, w) ∷ m) =
      ground (arith, e.beq_iff k j, e.beq_iff i k, e.beq_iff i j, lookup-delete k j m)
