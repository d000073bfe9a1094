-- ===== src/Framing/PrivateMessage/Protection.antt =====
-- mls/framing/private.go: ProtectPrivate, AssembleCommitPrivate and UnprotectPrivate.
use mls_go.Prelude.{
  ℕ, Option, ◌++◌, length, take, drop, ltb, if◌then◌else◌, ◌==◌, Result, ok, err, ◌>>=◌, panics,
  not_a_member, signature_failed,
}
use mls_go.Prelude.Xor.{xor_bytes}
use mls_go.Syntax.Varint.{Bytes}
use mls_go.Syntax.Builder.{new_builder, write_opaque_v, write_uint8, write_uint64}
use mls_go.Syntax.Format.Message.{unmarshal_mls}
use mls_go.Cipher
use mls_go.Cipher.{Suite, Signer}
use mls_go.KeySchedule.GroupContext.{GroupContext}
use mls_go.KeySchedule.SecretTree.{
  SecretTree, RatchetType, handshake_ratchet, application_ratchet, key_nonce, sender_data_key_nonce,
}
use mls_go.Framing.Content.{FramedContent, application}
use mls_go.Framing.AuthData.{FramedContentAuthData}
use mls_go.Framing.AuthenticatedContent
use mls_go.Framing.AuthenticatedContent.{AuthenticatedContent, private_message, member}
use mls_go.Framing.PublicMessage.Protection.{unsigned}
use mls_go.Framing.PrivateMessage.{PrivateMessage}
use mls_go.Framing.PrivateMessage.SenderData
use mls_go.Framing.PrivateMessage.SenderData.{SenderData}
use mls_go.Framing.PrivateMessage.Content.{private_message_content, decode_private_message_content}

unfoldable pub sender_data_aad : Bytes → ℕ → ℕ → Result Bytes
sender_data_aad group_id epoch ct = do
  b ← write_opaque_v new_builder group_id
  ok (write_uint8 (write_uint64 b epoch) ct)

unfoldable pub private_content_aad : Bytes → ℕ → ℕ → Bytes → Result Bytes
private_content_aad group_id epoch ct ad = do
  b ← write_opaque_v new_builder group_id
  write_opaque_v (write_uint8 (write_uint64 b epoch) ct) ad

unfoldable pub ratchet_type_for : ℕ → RatchetType
ratchet_type_for ct = if ct == application then application_ratchet else handshake_ratchet

-- The first 4 bytes of the nonce; an index past its end panics.
unfoldable pub apply_reuse_guard : Bytes → Bytes → Result Bytes
apply_reuse_guard nonce guard' =
    if ltb (length nonce) 4
    then err panics
    else ok (xor_bytes (take 4 nonce) guard' ++ drop 4 nonce)

unfoldable pub seal_private :
    Suite
    → SecretTree
    → Bytes
    → FramedContent
    → FramedContentAuthData
    → ℕ
    → Bytes
    → ℕ
    → Result PrivateMessage
seal_private suite st sender_data_secret fc auth generation reuse_guard padding_size = do
  (key, nonce) ← key_nonce st fc.sender.leaf_index (ratchet_type_for fc.content_type) generation
  content_aad ← private_content_aad fc.group_id fc.epoch fc.content_type fc.authenticated_data
  pt ← private_message_content fc auth padding_size
  guarded ← apply_reuse_guard nonce reuse_guard
  ciphertext ← Cipher.seal suite key guarded content_aad pt
  (sd_key, sd_nonce) ← sender_data_key_nonce suite sender_data_secret ciphertext
  sd_aad ← sender_data_aad fc.group_id fc.epoch fc.content_type
  sdb ← SenderData.marshal new_builder (record {
    leaf_index = fc.sender.leaf_index;
    generation = generation;
    reuse_guard = reuse_guard;
  })
  enc_sd ← Cipher.seal suite sd_key sd_nonce sd_aad sdb
  ok (record {
    group_id = fc.group_id;
    epoch = fc.epoch;
    content_type = fc.content_type;
    authenticated_data = fc.authenticated_data;
    encrypted_sender_data = enc_sd;
    ciphertext = ciphertext;
  })

unfoldable pub protect_private :
    Suite
    → Signer
    → Option GroupContext
    → SecretTree
    → Bytes
    → FramedContent
    → ℕ
    → Bytes
    → ℕ
    → Bytes
    → Result PrivateMessage
protect_private suite signer gc st sender_data_secret fc generation reuse_guard padding_size tag =
    if fc.sender.type == member
    then (do
      ac ← AuthenticatedContent.sign (unsigned private_message fc tag) suite signer gc
      seal_private suite st sender_data_secret fc ac.auth generation reuse_guard padding_size)
    else err not_a_member

unfoldable pub assemble_commit_private :
    Suite
    → SecretTree
    → Bytes
    → FramedContent
    → ℕ
    → Bytes
    → ℕ
    → Bytes
    → Bytes
    → Result PrivateMessage
assemble_commit_private suite st sender_data_secret fc generation reuse_guard padding_size signature
      conf_tag =
    if fc.sender.type == member
    then seal_private suite st sender_data_secret fc
        (record { signature = signature; confirmation_tag = conf_tag }) generation reuse_guard
        padding_size
    else err not_a_member

-- The two AEAD steps of UnprotectPrivate, up to the content that it rebuilds.
unfoldable pub open_private :
    Suite → SecretTree → Bytes → PrivateMessage → Result AuthenticatedContent
open_private suite st sender_data_secret m = do
  (sd_key, sd_nonce) ← sender_data_key_nonce suite sender_data_secret m.ciphertext
  sd_aad ← sender_data_aad m.group_id m.epoch m.content_type
  sd_plain ← Cipher.open_sealed suite sd_key sd_nonce sd_aad m.encrypted_sender_data
  sd ← unmarshal_mls SenderData.decode_sender_data sd_plain
  (key, nonce) ← key_nonce st sd.leaf_index (ratchet_type_for m.content_type) sd.generation
  content_aad ← private_content_aad m.group_id m.epoch m.content_type m.authenticated_data
  guarded ← apply_reuse_guard nonce sd.reuse_guard
  pt ← Cipher.open_sealed suite key guarded content_aad m.ciphertext
  (content, auth) ← decode_private_message_content pt m.content_type
  ok (record {
    wire_format = private_message;
    content = record {
      group_id = m.group_id;
      epoch = m.epoch;
      sender = record { type = member; leaf_index = sd.leaf_index; index = 0 };
      authenticated_data = m.authenticated_data;
      content_type = m.content_type;
      content = content;
    };
    auth = auth;
  })

unfoldable pub unprotect_private :
    Suite
    → (ℕ → Result Bytes)
    → Option GroupContext
    → SecretTree
    → Bytes
    → PrivateMessage
    → Result AuthenticatedContent
unprotect_private suite signature_pub gc st sender_data_secret m = do
  ac ← open_private suite st sender_data_secret m
  pub_key ← signature_pub ac.content.sender.leaf_index
  if AuthenticatedContent.verify ac suite pub_key gc then ok ac else err signature_failed
