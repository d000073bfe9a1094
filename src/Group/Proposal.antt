-- ===== src/Group/Proposal.antt =====
-- mls/group/proposal.go, `Proposal`, and its wire form. The wrapper structs with one field (`Add`,
-- `Update`, `Remove`, `PreSharedKey`, `ExternalInit`, `GroupContextExtensions`) are that field.
use mls_go.Prelude.{
  ℕ, ◌^◌, ◌<◌, ◌≡◌, refl, sym, List, All, Option, none, some, Result, ok, err, ◌>>=◌, if◌then◌else◌,
  ◌==◌,
}
use mls_go.Syntax.Varint.{IsByte, Bytes}
use mls_go.Syntax.Builder.{Builder, write_marshalled, write_opaque_v, write_uint16, write_uint32}
use mls_go.Syntax.Cursor.{Cursor, read_opaque_v, read_uint16, read_uint32}
use mls_go.Syntax.Vector.{write_vector_v, read_vector_v}
use mls_go.Syntax.Format.{IsFormat, IsStrict}
use mls_go.Syntax.Format.Opaque.{opaque-IsFormat}
use mls_go.Syntax.Format.Scalars.{uint32-IsFormat, uint16-IsStrict}
use mls_go.Syntax.Format.Vector.{vector-IsStrict}
use mls_go.Syntax.Format.Struct.{first_field, refused, restrict}
use mls_go.Syntax.Format.Union.{branch, case, inline}
use mls_go.Syntax.Format.Message
use mls_go.Prelude.{subst, missing_body, unknown_proposal_type}
use mls_go.Group.KeyPackage
use mls_go.Group.KeyPackage.{KeyPackage}
use mls_go.Group.ReInit
use mls_go.Group.ReInit.{ReInit}
use mls_go.KeySchedule.PreSharedKeyId
use mls_go.KeySchedule.PreSharedKeyId.{PreSharedKeyId}
use mls_go.Tree.Extension
use mls_go.Tree.Extension.{Extension}
use mls_go.Tree.LeafNode
use mls_go.Tree.LeafNode.{LeafNode}

pub record Proposal : Type 0 where
  pub type : ℕ
  pub add : Option KeyPackage
  pub update : Option LeafNode
  pub remove : Option ℕ
  pub pre_shared_key : Option PreSharedKeyId
  pub re_init : Option ReInit
  pub external_init : Option Bytes
  pub group_context_extensions : Option (List Extension)

abbrev of_add : ℕ → KeyPackage → Proposal
of_add t a = record {
  type = t;
  add = some a;
  update = none;
  remove = none;
  pre_shared_key = none;
  re_init = none;
  external_init = none;
  group_context_extensions = none;
}

abbrev of_update : ℕ → LeafNode → Proposal
of_update t a = record {
  type = t;
  add = none;
  update = some a;
  remove = none;
  pre_shared_key = none;
  re_init = none;
  external_init = none;
  group_context_extensions = none;
}

abbrev of_remove : ℕ → ℕ → Proposal
of_remove t a = record {
  type = t;
  add = none;
  update = none;
  remove = some a;
  pre_shared_key = none;
  re_init = none;
  external_init = none;
  group_context_extensions = none;
}

abbrev of_pre_shared_key : ℕ → PreSharedKeyId → Proposal
of_pre_shared_key t a = record {
  type = t;
  add = none;
  update = none;
  remove = none;
  pre_shared_key = some a;
  re_init = none;
  external_init = none;
  group_context_extensions = none;
}

abbrev of_re_init : ℕ → ReInit → Proposal
of_re_init t a = record {
  type = t;
  add = none;
  update = none;
  remove = none;
  pre_shared_key = none;
  re_init = some a;
  external_init = none;
  group_context_extensions = none;
}

abbrev of_external_init : ℕ → Bytes → Proposal
of_external_init t a = record {
  type = t;
  add = none;
  update = none;
  remove = none;
  pre_shared_key = none;
  re_init = none;
  external_init = some a;
  group_context_extensions = none;
}

abbrev of_group_context_extensions : ℕ → List Extension → Proposal
of_group_context_extensions t a = record {
  type = t;
  add = none;
  update = none;
  remove = none;
  pre_shared_key = none;
  re_init = none;
  external_init = none;
  group_context_extensions = some a;
}

-- The `switch` on the tag.
marshal_body : Builder → Proposal → Result Builder
marshal_body b p =
    if p.type == 1
    then (elim p.add [ none ↦ err missing_body | some a ↦ KeyPackage.marshal b a ])
    else if p.type == 2
    then (elim p.update [
      | none ↦ err missing_body
      | some a ↦ write_marshalled b (LeafNode.marshal_mls a)
    ])
    else if p.type == 3
    then (elim p.remove [ none ↦ err missing_body | some a ↦ ok (write_uint32 b a) ])
    else if p.type == 4
    then (elim p.pre_shared_key [ none ↦ err missing_body | some a ↦ PreSharedKeyId.marshal b a ])
    else if p.type == 5
    then (elim p.re_init [ none ↦ err missing_body | some a ↦ ReInit.marshal b a ])
    else if p.type == 6
    then (elim p.external_init [ none ↦ err missing_body | some a ↦ write_opaque_v b a ])
    else if p.type == 7
    then (elim p.group_context_extensions [
      | none ↦ err missing_body
      | some a ↦ write_vector_v b a Extension.marshal
    ])
    else err unknown_proposal_type

decode_body : ℕ → Cursor → Result (Proposal × Cursor)
decode_body t c =
    if t == 1
    then (do (a, c) ← KeyPackage.decode_key_package c; ok (of_add t a, c))
    else if t == 2
    then (do (a, c) ← LeafNode.decode_leaf_node c; ok (of_update t a, c))
    else if t == 3
    then (do (a, c) ← read_uint32 c; ok (of_remove t a, c))
    else if t == 4
    then (do (a, c) ← PreSharedKeyId.decode_pre_shared_key_id c; ok (of_pre_shared_key t a, c))
    else if t == 5
    then (do (a, c) ← ReInit.decode_re_init c; ok (of_re_init t a, c))
    else if t == 6
    then (do (a, c) ← read_opaque_v c; ok (of_external_init t a, c))
    else if t == 7
    then (do
      (a, c) ← read_vector_v c Extension.decode_extension
      ok (of_group_context_extensions t a, c))
    else err unknown_proposal_type

unfoldable pub marshal : Builder → Proposal → Result Builder
unfolding marshal_body
marshal b p = do let b = write_uint16 b p.type; marshal_body b p

unfoldable pub decode_proposal : Cursor → Result (Proposal × Cursor)
unfolding decode_body
decode_proposal c = do (t, c) ← read_uint16 c; decode_body t c

-- What the tag says of the other fields; no value with an unknown tag is written.
abbrev Fits : Proposal → ℕ → Type 0
Fits p k =
    if k == 1
    then ((a : KeyPackage) × KeyPackage.InRange a × (p ≡ of_add 1 a))
    else if k == 2
    then ((a : LeafNode) × LeafNode.InRange a × (p ≡ of_update 2 a))
    else if k == 3
    then ((a : ℕ) × a < 2 ^ 32 × (p ≡ of_remove 3 a))
    else if k == 4
    then ((a : PreSharedKeyId) × PreSharedKeyId.InRange a × (p ≡ of_pre_shared_key 4 a))
    else if k == 5
    then ((a : ReInit) × ReInit.InRange a × (p ≡ of_re_init 5 a))
    else if k == 6
    then ((a : Bytes) × All IsByte a × (p ≡ of_external_init 6 a))
    else if k == 7
    then ((a : List Extension) × All Extension.InRange a × (p ≡ of_group_context_extensions 7 a))
    else Unit

pub record InRange (p : Proposal) : Type 0 where
  pub tag_fits : p.type < 2 ^ 16
  pub body : Fits p p.type

body-IsFormat : (t : ℕ) → IsFormat (λ p. Fits p p.type × (p.type ≡ t)) marshal_body (decode_body t)
unfolding marshal_body decode_body
body-IsFormat t =
    branch (λ p. p.type) t 1
      (case (λ p. p.type) Fits 1 of_add KeyPackage.key_package-IsStrict.format (λ p h. h)
        (λ a q. (a, q, refl)) (λ a. refl) (λ b a. refl) t)
      λ _.
        branch (λ p. p.type) t 2
          (case (λ p. p.type) Fits 2 of_update (inline LeafNode.leaf_node-IsStrict.format)
            (λ p h. h) (λ a q. (a, q, refl)) (λ a. refl) (λ b a. refl) t)
          λ _.
            branch (λ p. p.type) t 3
              (case (λ p. p.type) Fits 3 of_remove uint32-IsFormat (λ p h. h) (λ a q. (a, q, refl))
                (λ a. refl) (λ b a. refl) t)
              λ _.
                branch (λ p. p.type) t 4
                  (case (λ p. p.type) Fits 4 of_pre_shared_key
                    PreSharedKeyId.pre_shared_key_id-IsStrict.format (λ p h. h)
                    (λ a q. (a, q, refl)) (λ a. refl) (λ b a. refl) t)
                  λ _.
                    branch (λ p. p.type) t 5
                      (case (λ p. p.type) Fits 5 of_re_init ReInit.re_init-IsStrict.format
                        (λ p h. h) (λ a q. (a, q, refl)) (λ a. refl) (λ b a. refl) t)
                      λ _.
                        branch (λ p. p.type) t 6
                          (case (λ p. p.type) Fits 6 of_external_init opaque-IsFormat (λ p h. h)
                            (λ a q. (a, q, refl)) (λ a. refl) (λ b a. refl) t)
                          λ _.
                            branch (λ p. p.type) t 7
                              (case (λ p. p.type) Fits 7 of_group_context_extensions
                                (vector-IsStrict Extension.extension-IsStrict).format (λ p h. h)
                                (λ a q. (a, q, refl)) (λ a. refl) (λ b a. refl) t)
                              λ _. refused unknown_proposal_type unknown_proposal_type (λ q. cc)

-- What `marshal` writes for a `Proposal` in range is appended to the buffer, and is decoded to the same
-- value whatever follows it. Bytes that decode to a `Proposal` are those that `marshal` writes for it,
-- at least one, and the value is in range. Decoding any bytes ends.
pub proposal-IsStrict : IsStrict InRange marshal decode_proposal
unfolding marshal decode_proposal
proposal-IsStrict =
    first_field (λ p. p.type) uint16-IsStrict (λ p h. h.tag_fits)
      λ t small.
        restrict (body-IsFormat t) (λ p h. (h.0.body, h.1))
          (λ p h. (record { tag_fits = subst (λ u. u < 2 ^ 16) (sym h.1) small; body = h.0 }, h.1))

abbrev pub marshal_mls : Proposal → Result Bytes
marshal_mls p = Message.marshal_mls marshal p

abbrev pub unmarshal_mls : Bytes → Result Proposal
unmarshal_mls wire = Message.unmarshal_mls decode_proposal wire
