-- ===== src/Tree/LeafNodeSource.antt =====
-- mls/tree/leaf.go, `LeafNodeSource` and the fields of `LeafNode` that depend on it: how a leaf node
-- entered the tree.
use mls_go.Prelude.{
  ℕ, ◌^◌, ◌<◌, ◌≡◌, refl, sym, [], All, Option, none, some, Result, ok, err, ◌>>=◌, if◌then◌else◌,
  ◌==◌,
}
use mls_go.Syntax.Varint.{IsByte, Bytes}
use mls_go.Syntax.Builder.{Builder, write_opaque_v, write_uint8}
use mls_go.Syntax.Cursor.{Cursor, read_opaque_v, read_uint8}
use mls_go.Syntax.Format.{IsFormat, IsStrict}
use mls_go.Syntax.Format.Opaque.{opaque-IsFormat}
use mls_go.Syntax.Format.Scalars.{uint8-IsStrict}
use mls_go.Syntax.Format.Struct.{first_field, refused, restrict}
use mls_go.Syntax.Format.Union.{branch, case}
use mls_go.Syntax.Format.Union.{empty-IsFormat}
use mls_go.Prelude.{subst, missing_lifetime, invalid_leaf_node_source}
use mls_go.Tree.Lifetime
use mls_go.Tree.Lifetime.{Lifetime}

pub record LeafNodeSource : Type 0 where
  pub leaf_node_source : ℕ
  pub lifetime : Option Lifetime
  pub parent_hash : Bytes

abbrev of_key_package : ℕ → Lifetime → LeafNodeSource
of_key_package t a = record { leaf_node_source = t; lifetime = some a; parent_hash = [] }

abbrev of_update : ℕ → Unit {0} → LeafNodeSource
of_update t u = record { leaf_node_source = t; lifetime = none; parent_hash = [] }

abbrev of_commit : ℕ → Bytes → LeafNodeSource
of_commit t a = record { leaf_node_source = t; lifetime = none; parent_hash = a }

-- The `switch` on the tag.
marshal_body : Builder → LeafNodeSource → Result Builder
marshal_body b l =
    if l.leaf_node_source == 1
    then (elim l.lifetime [ none ↦ err missing_lifetime | some a ↦ Lifetime.marshal b a ])
    else if l.leaf_node_source == 2
    then ok b
    else if l.leaf_node_source == 3
    then write_opaque_v b l.parent_hash
    else err invalid_leaf_node_source

decode_body : ℕ → Cursor → Result (LeafNodeSource × Cursor)
decode_body t c =
    if t == 1
    then (do (a, c) ← Lifetime.decode_lifetime c; ok (of_key_package t a, c))
    else if t == 2
    then ok (of_update t tt, c)
    else if t == 3
    then (do (a, c) ← read_opaque_v c; ok (of_commit t a, c))
    else err invalid_leaf_node_source

unfoldable pub marshal : Builder → LeafNodeSource → Result Builder
unfolding marshal_body
marshal b l = do let b = write_uint8 b l.leaf_node_source; marshal_body b l

unfoldable pub decode_leaf_node_source : Cursor → Result (LeafNodeSource × Cursor)
unfolding decode_body
decode_leaf_node_source c = do (t, c) ← read_uint8 c; decode_body t c

-- What the tag says of the other fields; no value with an unknown tag is written.
abbrev Fits : LeafNodeSource → ℕ → Type 0
Fits l k =
    if k == 1
    then ((a : Lifetime) × Lifetime.InRange a × (l ≡ of_key_package 1 a))
    else if k == 2
    then ((a : Unit {0}) × Unit {0} × (l ≡ of_update 2 a))
    else if k == 3
    then ((a : Bytes) × All IsByte a × (l ≡ of_commit 3 a))
    else Unit

pub record InRange (l : LeafNodeSource) : Type 0 where
  pub tag_fits : l.leaf_node_source < 2 ^ 8
  pub body : Fits l l.leaf_node_source

body-IsFormat :
    (t : ℕ)
    → IsFormat
        (λ l. Fits l l.leaf_node_source × (l.leaf_node_source ≡ t))
        marshal_body
        (decode_body t)
unfolding marshal_body decode_body
body-IsFormat t =
    branch (λ l. l.leaf_node_source) t 1
      (case (λ l. l.leaf_node_source) Fits 1 of_key_package Lifetime.lifetime-IsStrict.format
        (λ l h. h) (λ a q. (a, q, refl)) (λ a. refl) (λ b a. refl) t)
      λ _.
        branch (λ l. l.leaf_node_source) t 2
          (case (λ l. l.leaf_node_source) Fits 2 of_update empty-IsFormat (λ l h. h)
            (λ a q. (a, q, refl)) (λ a. refl) (λ b a. refl) t)
          λ _.
            branch (λ l. l.leaf_node_source) t 3
              (case (λ l. l.leaf_node_source) Fits 3 of_commit opaque-IsFormat (λ l h. h)
                (λ a q. (a, q, refl)) (λ a. refl) (λ b a. refl) t)
              λ _. refused invalid_leaf_node_source invalid_leaf_node_source (λ q. cc)

-- What `marshal` writes for a `LeafNodeSource` in range is appended to the buffer, and is decoded to the same
-- value whatever follows it. Bytes that decode to a `LeafNodeSource` are those that `marshal` writes for it,
-- at least one, and the value is in range. Decoding any bytes ends.
pub leaf_node_source-IsStrict : IsStrict InRange marshal decode_leaf_node_source
unfolding marshal decode_leaf_node_source
leaf_node_source-IsStrict =
    first_field (λ l. l.leaf_node_source) uint8-IsStrict (λ l h. h.tag_fits)
      λ t small.
        restrict (body-IsFormat t) (λ l h. (h.0.body, h.1))
          (λ l h. (record { tag_fits = subst (λ u. u < 2 ^ 8) (sym h.1) small; body = h.0 }, h.1))
