-- ===== src/Prelude/Text.antt =====
-- Text as the bytes that Go's `[]byte(s)` yields; every label of the modelled code is ASCII.
use Prim.Native.Nat.{ℕ}
use Prim.Native.Char.{code}
use Prim.Native.String.{String}
use mathlib.Core.List.{List, [], ◌∷◌}

abbrev pub codes : String → List ℕ
codes String.[] = []
codes (String.◌∷◌ c s) = code c ∷ codes s
