-- ===== src/Sequencer/TieBreak.antt =====
-- ironcore/sequencer/tiebreak.go: the branch that recovery takes. A commit reference of the source is
-- a slice, and `none` is the nil slice.
pub mod Least
pub mod Nil
pub mod Order
mod Tests
use mls_go.Prelude.{
  Bool, true, false, ◌||◌, Option, none, some, List, [], ◌∷◌, ◌++◌, ltb, if◌then◌else◌,
}
use mls_go.Syntax.Varint.{Bytes}
use mls_go.Cipher.{Suite, hash}

-- bytes.Compare(a, b) < 0
unfoldable pub bytes_less : Bytes → Bytes → Bool
bytes_less a [] = false
bytes_less [] (y ∷ b) = true
bytes_less (x ∷ a) (y ∷ b) =
    let rest = bytes_less a b in if ltb x y then true else if ltb y x then false else rest

-- The bytes of a slice: a nil slice has none.
abbrev pub bytes_of : Option Bytes → Bytes
bytes_of none = []
bytes_of (some c) = c

abbrev pub key_of : Suite → Option Bytes → Bytes
key_of suite c = hash suite (bytes_of c) ++ bytes_of c

abbrev pub is_nil : Option Bytes → Bool
is_nil none = true
is_nil (some c) = false

-- The loop, with `best` and `bestKey`.
unfoldable pub canonical_loop : Suite → Option Bytes → Bytes → List (Option Bytes) → Option Bytes
canonical_loop suite best best_key [] = best
canonical_loop suite best best_key (c ∷ candidates) =
    let taken = canonical_loop suite c (key_of suite c) candidates in
    let kept = canonical_loop suite best best_key candidates in
    if is_nil best || bytes_less (key_of suite c) best_key then taken else kept

unfoldable pub canonical_commit : Suite → List (Option Bytes) → Option Bytes
unfolding canonical_loop
canonical_commit suite candidates = canonical_loop suite none [] candidates
