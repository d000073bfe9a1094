-- ===== src/Framing/AuthenticatedContent.antt =====
-- mls/framing/framing.go, `AuthenticatedContent`: a content with its signature, bound to the wire
-- format; what is signed, and the check of the signature.
pub mod Signed
use mls_go.Prelude.{
  ℕ, Bool, true, false, Option, none, some, if◌then◌else◌, ◌==◌, ◌||◌, Result, ok, err, ◌>>=◌,
  no_group_context,
}
use mls_go.Prelude.Text.{codes}
use mls_go.Syntax.Varint.{Bytes}
use mls_go.Syntax.Builder.{Builder, new_builder, write_uint16, write_raw}
use mls_go.Cipher
use mls_go.Cipher.{Suite, Signer}
use mls_go.KeySchedule.GroupContext
use mls_go.KeySchedule.GroupContext.{GroupContext}
use mls_go.Framing.Content
use mls_go.Framing.Content.{FramedContent}
use mls_go.Framing.AuthData
use mls_go.Framing.AuthData.{FramedContentAuthData}

-- The wire formats
abbrev pub public_message : ℕ
public_message = 1

abbrev pub private_message : ℕ
private_message = 2

-- SenderTypeMember and SenderTypeNewMemberCommit
abbrev pub member : ℕ
member = 1

abbrev new_member_commit : ℕ
new_member_commit = 4

-- tree.ProtocolVersionMLS10
abbrev mls10 : ℕ
mls10 = 1

pub record AuthenticatedContent : Type 0 where
  pub wire_format : ℕ
  pub content : FramedContent
  pub auth : FramedContentAuthData

unfoldable pub marshal_mls : AuthenticatedContent → Result Bytes
marshal_mls ac = do
  let b = write_uint16 new_builder ac.wire_format
  b ← Content.marshal b ac.content
  AuthData.marshal ac.content.content_type b ac.auth

-- What a sender of this type adds to the signed bytes.
unfoldable pub signed_context : ℕ → Builder → Option GroupContext → Result Builder
signed_context sender b gc =
    if (sender == member) || (sender == new_member_commit)
    then (elim gc [
      | none ↦ err no_group_context
      | some gc ↦ (do gcb ← GroupContext.marshal_mls gc; ok (write_raw b gcb))
    ])
    else ok b

unfoldable pub framed_content_tbs : ℕ → FramedContent → Option GroupContext → Result Bytes
unfolding signed_context
framed_content_tbs wf fc gc = do
  let b = write_uint16 new_builder mls10
  let b = write_uint16 b wf
  b ← Content.marshal b fc
  signed_context fc.sender.type b gc

abbrev pub tbs_label : Bytes
tbs_label = codes "FramedContentTBS"

unfoldable pub sign :
    AuthenticatedContent → Suite → Signer → Option GroupContext → Result AuthenticatedContent
sign ac suite signer gc = do
  tbs ← framed_content_tbs ac.wire_format ac.content gc
  sig ← Cipher.sign_with_label suite signer tbs_label tbs
  ok (record ac { auth = record ac.auth { signature = sig } })

unfoldable pub verify : AuthenticatedContent → Suite → Bytes → Option GroupContext → Bool
verify ac suite signature_pub gc = elim (framed_content_tbs ac.wire_format ac.content gc) [
  | err why ↦ false
  | ok tbs ↦ Cipher.verify_with_label suite signature_pub tbs_label tbs ac.auth.signature
]
