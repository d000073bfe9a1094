-- ===== src/Syntax/Vector.antt =====
-- mls/syntax/vector.go: vectors of variable-length elements behind their length in bytes, and
-- optional values. The encoder and the decoder of an element are arguments, as in the source.
use mls_go.Prelude.{
  ℕ, zero, suc, List, [], ◌∷◌, ◌++◌, length, ◌==◌, if◌then◌else◌, Option, none, some, Result, ok,
  err, ◌>>=◌, out_of_fuel, invalid_optional,
}
use mls_go.Syntax.Builder.{Builder, new_builder, write_opaque_v, write_uint8}
use mls_go.Syntax.Cursor.{Cursor, read_opaque_v, read_uint8}

module _ {T : Type 0} where
  -- `for _, it := range items { enc(inner, it) }`
  unfoldable pub write_items : (Builder → T → Result Builder) → Builder → List T → Result Builder
  write_items enc inner [] = ok inner
  write_items enc inner (it ∷ items) = do inner ← enc inner it; write_items enc inner items

  unfoldable pub write_vector_v : Builder → List T → (Builder → T → Result Builder) → Result Builder
  unfolding write_items
  write_vector_v b items enc = do inner ← write_items enc new_builder items; write_opaque_v b inner

  -- `for !sub.Empty()`, with a bound on the rounds. The source has none, and would not end on a
  -- `dec` that consumes nothing.
  unfoldable pub read_items : (Cursor → Result (T × Cursor)) → ℕ → Cursor → List T → Result (List T)
  read_items dec fuel [] out = ok out
  read_items dec zero (b ∷ sub) out = err out_of_fuel
  read_items dec (suc fuel) (b ∷ sub) out = do
    (v, sub) ← dec (b ∷ sub)
    read_items dec fuel sub (out ++ v ∷ [])

  -- An element that takes a byte at least leaves no more rounds than bytes.
  unfoldable pub read_vector_v : Cursor → (Cursor → Result (T × Cursor)) → Result (List T × Cursor)
  unfolding read_items
  read_vector_v c dec = do
    (body, c) ← read_opaque_v c
    out ← read_items dec (length body) body []
    ok (out, c)

  unfoldable pub write_optional :
      Builder → Option T → (Builder → T → Result Builder) → Result Builder
  write_optional b none enc = ok (write_uint8 b 0)
  write_optional b (some v) enc = enc (write_uint8 b 1) v

  unfoldable pub read_optional :
      Cursor → (Cursor → Result (T × Cursor)) → Result (Option T × Cursor)
  read_optional c dec = do
    (present, c) ← read_uint8 c
    if present == 0
        then ok (none, c)
        else if present == 1
        then (do (v, c) ← dec c; ok (some v, c))
        else err invalid_optional
