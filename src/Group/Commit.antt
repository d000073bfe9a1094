-- ===== src/Group/Commit.antt =====
-- mls/group/commit.go: the body of a Commit message, and its wire form.
use mls_go.Prelude.{refl, List, All, Option, Result, ok, ◌>>=◌, arith}
use mls_go.Syntax.Varint.{Bytes}
use mls_go.Syntax.Builder.{Builder, write_marshalled}
use mls_go.Syntax.Cursor.{Cursor}
use mls_go.Syntax.Vector.{write_vector_v, read_vector_v, write_optional, read_optional}
use mls_go.Syntax.Format.{IsStrict}
use mls_go.Syntax.Format.Vector.{vector-IsStrict}
use mls_go.Syntax.Format.Optional.{AllSome, optional-IsFormat}
use mls_go.Syntax.Format.Struct.{first_field, field, done}
use mls_go.Syntax.Format.Union.{inline}
use mls_go.Syntax.Format.Message
use mls_go.Group.ProposalOrRef
use mls_go.Group.ProposalOrRef.{ProposalOrRef}
use mls_go.Tree.UpdatePath
use mls_go.Tree.UpdatePath.{UpdatePath}

pub record Commit : Type 0 where
  pub proposals : List ProposalOrRef
  pub path : Option UpdatePath

unfoldable pub marshal : Builder → Commit → Result Builder
marshal b cm = do
  b ← write_vector_v b cm.proposals ProposalOrRef.marshal
  b ← write_optional b cm.path (λ b v. write_marshalled b (UpdatePath.marshal_mls v))
  ok b

unfoldable pub decode_commit : Cursor → Result (Commit × Cursor)
decode_commit c = do
  (proposals, c) ← read_vector_v c ProposalOrRef.decode_proposal_or_ref
  (path, c) ← read_optional c UpdatePath.decode_update_path
  ok (record { proposals = proposals; path = path }, c)

-- The fields hold what their Go types can hold.
pub record InRange (cm : Commit) : Type 0 where
  pub proposals : All ProposalOrRef.InRange cm.proposals
  pub path : AllSome UpdatePath.InRange cm.path

-- What `marshal` writes for a `Commit` in range is appended to the buffer, and is decoded to the same
-- value whatever follows it. Bytes that decode to a `Commit` are those that `marshal` writes for it,
-- at least one, and the value is in range. Decoding any bytes ends.
pub commit-IsStrict : IsStrict InRange marshal decode_commit
unfolding marshal decode_commit
commit-IsStrict =
    first_field (λ cm. cm.proposals) (vector-IsStrict ProposalOrRef.proposal_or_ref-IsStrict)
      (λ cm fits. fits.proposals)
      λ proposals h0.
        field (λ cm. cm.path) (optional-IsFormat (inline UpdatePath.update_path-IsStrict.format))
          (λ cm fits. fits.0.path)
          λ path h1.
            done (record { proposals = proposals; path = path })
              ((record { proposals = h0; path = h1 }, refl), refl) (λ cm fits. ground arith)

abbrev pub marshal_mls : Commit → Result Bytes
marshal_mls cm = Message.marshal_mls marshal cm

abbrev pub unmarshal_mls : Bytes → Result Commit
unmarshal_mls wire = Message.unmarshal_mls decode_commit wire
