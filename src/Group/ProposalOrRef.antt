-- ===== src/Group/ProposalOrRef.antt =====
-- mls/group/proposal.go, `ProposalOrRef`: a proposal or a reference to one, and its wire form.
use mls_go.Prelude.{
  ℕ, ◌^◌, ◌<◌, ◌≡◌, refl, sym, [], All, Option, none, some, Result, ok, err, ◌>>=◌, if◌then◌else◌,
  ◌==◌,
}
use mls_go.Syntax.Varint.{IsByte, Bytes}
use mls_go.Syntax.Builder.{Builder, write_opaque_v, write_uint8}
use mls_go.Syntax.Cursor.{Cursor, read_opaque_v, read_uint8}
use mls_go.Syntax.Format.{IsFormat, IsStrict}
use mls_go.Syntax.Format.Opaque.{opaque-IsFormat}
use mls_go.Syntax.Format.Scalars.{uint8-IsStrict}
use mls_go.Syntax.Format.Struct.{first_field, refused, restrict}
use mls_go.Syntax.Format.Union.{branch, case}
use mls_go.Syntax.Format.Message
use mls_go.Prelude.{subst, missing_body, unknown_proposal_or_ref}
use mls_go.Group.Proposal
use mls_go.Group.Proposal.{Proposal}

pub record ProposalOrRef : Type 0 where
  pub type : ℕ
  pub proposal : Option Proposal
  pub reference : Bytes

abbrev of_proposal : ℕ → Proposal → ProposalOrRef
of_proposal t a = record { type = t; proposal = some a; reference = [] }

abbrev of_reference : ℕ → Bytes → ProposalOrRef
of_reference t a = record { type = t; proposal = none; reference = a }

-- The `switch` on the tag.
marshal_body : Builder → ProposalOrRef → Result Builder
marshal_body b por =
    if por.type == 1
    then (elim por.proposal [ none ↦ err missing_body | some a ↦ Proposal.marshal b a ])
    else if por.type == 2
    then write_opaque_v b por.reference
    else err unknown_proposal_or_ref

decode_body : ℕ → Cursor → Result (ProposalOrRef × Cursor)
decode_body t c =
    if t == 1
    then (do (a, c) ← Proposal.decode_proposal c; ok (of_proposal t a, c))
    else if t == 2
    then (do (a, c) ← read_opaque_v c; ok (of_reference t a, c))
    else err unknown_proposal_or_ref

unfoldable pub marshal : Builder → ProposalOrRef → Result Builder
unfolding marshal_body
marshal b por = do let b = write_uint8 b por.type; marshal_body b por

unfoldable pub decode_proposal_or_ref : Cursor → Result (ProposalOrRef × Cursor)
unfolding decode_body
decode_proposal_or_ref c = do (t, c) ← read_uint8 c; decode_body t c

-- What the tag says of the other fields; no value with an unknown tag is written.
abbrev Fits : ProposalOrRef → ℕ → Type 0
Fits por k =
    if k == 1
    then ((a : Proposal) × Proposal.InRange a × (por ≡ of_proposal 1 a))
    else if k == 2
    then ((a : Bytes) × All IsByte a × (por ≡ of_reference 2 a))
    else Unit

pub record InRange (por : ProposalOrRef) : Type 0 where
  pub tag_fits : por.type < 2 ^ 8
  pub body : Fits por por.type

body-IsFormat :
    (t : ℕ) → IsFormat (λ por. Fits por por.type × (por.type ≡ t)) marshal_body (decode_body t)
unfolding marshal_body decode_body
body-IsFormat t =
    branch (λ por. por.type) t 1
      (case (λ por. por.type) Fits 1 of_proposal Proposal.proposal-IsStrict.format (λ por h. h)
        (λ a q. (a, q, refl)) (λ a. refl) (λ b a. refl) t)
      λ _.
        branch (λ por. por.type) t 2
          (case (λ por. por.type) Fits 2 of_reference opaque-IsFormat (λ por h. h)
            (λ a q. (a, q, refl)) (λ a. refl) (λ b a. refl) t)
          λ _. refused unknown_proposal_or_ref unknown_proposal_or_ref (λ q. cc)

-- What `marshal` writes for a `ProposalOrRef` in range is appended to the buffer, and is decoded to the same
-- value whatever follows it. Bytes that decode to a `ProposalOrRef` are those that `marshal` writes for it,
-- at least one, and the value is in range. Decoding any bytes ends.
pub proposal_or_ref-IsStrict : IsStrict InRange marshal decode_proposal_or_ref
unfolding marshal decode_proposal_or_ref
proposal_or_ref-IsStrict =
    first_field (λ por. por.type) uint8-IsStrict (λ por h. h.tag_fits)
      λ t small.
        restrict (body-IsFormat t) (λ por h. (h.0.body, h.1))
          (λ por h. (record { tag_fits = subst (λ u. u < 2 ^ 8) (sym h.1) small; body = h.0 }, h.1))

abbrev pub marshal_mls : ProposalOrRef → Result Bytes
marshal_mls por = Message.marshal_mls marshal por

abbrev pub unmarshal_mls : Bytes → Result ProposalOrRef
unmarshal_mls wire = Message.unmarshal_mls decode_proposal_or_ref wire
