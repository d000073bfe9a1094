-- ===== src/Framing/PrivateMessage/Opening.antt =====
-- What ProtectPrivate encrypts UnprotectPrivate recovers.
use mls_go.Prelude.{
  ℕ, ◌≡◌, refl, sym, ap, subst, ◌∙◌, Bool, true, false, Option, [], if◌then◌else◌, ◌==◌, Result, ok,
  err, >>=-eq-ok, >>=_step, All, not_a_member, arith,
}
use mls_go.Syntax.Varint.{Bytes, IsByte}
use mls_go.Syntax.Builder.{new_builder}
use mls_go.Syntax.Format.Message.{unmarshal-marshal}
use mls_go.Cipher
use mls_go.Cipher.{Suite, Signer}
use mls_go.Cipher.Labels.{IsKeyOf}
use mls_go.KeySchedule.GroupContext.{GroupContext}
use mls_go.KeySchedule.SecretTree.{SecretTree, key_nonce, sender_data_key_nonce}
use mls_go.Framing.Content.{FramedContent, Fits, commit}
use mls_go.Framing.AuthData
use mls_go.Framing.AuthData.{FramedContentAuthData, FitsTag}
use mls_go.Framing.AuthenticatedContent
use mls_go.Framing.AuthenticatedContent.{AuthenticatedContent, private_message, member}
use mls_go.Framing.AuthenticatedContent.Signed.{verify-sign, sign-signature}
use mls_go.Framing.PublicMessage.Protection.{unsigned}
use mls_go.Framing.PrivateMessage.{PrivateMessage}
use mls_go.Framing.PrivateMessage.SenderData
use mls_go.Framing.PrivateMessage.SenderData.{SenderData, sender_data-IsStrict}
use mls_go.Framing.PrivateMessage.Content.{
  private_message_content, decode_private_message_content-private_message_content,
}
use mls_go.Framing.PrivateMessage.Protection.{
  sender_data_aad, private_content_aad, ratchet_type_for, apply_reuse_guard, seal_private,
  open_private, protect_private, unprotect_private,
}

-- The AEAD of a suite opens what it has sealed, as AES-GCM does.
abbrev pub OpensSealed : Suite → Type 0
OpensSealed suite =
    (key nonce aad plaintext ciphertext : Bytes)
    → Cipher.seal suite key nonce aad plaintext ≡ ok ciphertext
    → Cipher.open_sealed suite key nonce aad ciphertext ≡ ok plaintext

-- The sender that a private message stands for.
abbrev pub member_at : ℕ → FramedContent → FramedContent
member_at leaf fc = record fc { sender = record { type = member; leaf_index = leaf; index = 0 } }

ok_same : {a b : PrivateMessage} → ok a ≡ ok b → a ≡ b
ok_same h = cc h

module _ (suite : Suite) (st : SecretTree) (secret : Bytes) (fc : FramedContent)
    (auth : FramedContentAuthData) (generation : ℕ) (reuse_guard : Bytes) (padding_size : ℕ)
    (opens : OpensSealed suite) where
  abbrev sent : SenderData
  sent = record {
    leaf_index = fc.sender.leaf_index;
    generation = generation;
    reuse_guard = reuse_guard;
  }

  -- What the two AEAD steps have sealed is opened.
  pub open_private-seal_private :
      (m : PrivateMessage)
      → Fits fc.content_type fc.content
      → AuthData.InRange fc.content_type auth
      → SenderData.InRange sent
      → seal_private suite st secret fc auth generation reuse_guard padding_size ≡ ok m
      → open_private suite st secret m
        ≡ ok (record {
          wire_format = private_message;
          content = member_at fc.sender.leaf_index fc;
          auth = auth;
        })
  unfolding seal_private open_private
  open_private-seal_private m fits range in_range h =
      let ((key, nonce), e₁, r₁) =
        >>=-eq-ok (key_nonce st fc.sender.leaf_index (ratchet_type_for fc.content_type) generation)
          _ h in
      let (content_aad, e₂, r₂) =
        >>=-eq-ok (private_content_aad fc.group_id fc.epoch fc.content_type fc.authenticated_data) _
          r₁ in
      let (pt, e₃, r₃) = >>=-eq-ok (private_message_content fc auth padding_size) _ r₂ in
      let (guarded, e₄, r₄) = >>=-eq-ok (apply_reuse_guard nonce reuse_guard) _ r₃ in
      let (ciphertext, e₅, r₅) = >>=-eq-ok (Cipher.seal suite key guarded content_aad pt) _ r₄ in
      let ((sd_key, sd_nonce), e₆, r₆) =
        >>=-eq-ok (sender_data_key_nonce suite secret ciphertext) _ r₅ in
      let (sd_aad, e₇, r₇) =
        >>=-eq-ok (sender_data_aad fc.group_id fc.epoch fc.content_type) _ r₆ in
      let (sdb, e₈, r₈) = >>=-eq-ok (SenderData.marshal new_builder sent) _ r₇ in
      let (enc_sd, e₉, r₉) = >>=-eq-ok (Cipher.seal suite sd_key sd_nonce sd_aad sdb) _ r₈ in
      subst
        (λ (m : PrivateMessage).
          open_private suite st secret m
          ≡ ok (record {
            wire_format = private_message;
            content = member_at fc.sender.leaf_index fc;
            auth = auth;
          }))
        (ok_same r₉)
        (>>=_step _ e₆ (
          >>=_step _ e₇ (
            >>=_step _ (opens sd_key sd_nonce sd_aad sdb enc_sd e₉) (
              >>=_step _ (unmarshal-marshal sender_data-IsStrict.format sent sdb in_range e₈) (
                >>=_step _ e₁ (
                  >>=_step _ e₂ (
                    >>=_step _ e₄ (
                      >>=_step _ (opens key guarded content_aad pt ciphertext e₅) (
                        >>=_step _
                          (decode_private_message_content-private_message_content fc auth
                            padding_size pt fits range e₃)
                          refl)))))))))

-- ProtectPrivate has signed the content, and then sealed it.
signed_and_sealed :
    (suite : Suite) (signer : Signer) (gc : Option GroupContext) (st : SecretTree) (secret : Bytes)
    (fc : FramedContent) (generation : ℕ) (reuse_guard : Bytes) (padding_size : ℕ) (tag : Bytes)
    (m : PrivateMessage)
    → protect_private suite signer gc st secret fc generation reuse_guard padding_size tag ≡ ok m
    → (fc.sender.type ≡ member)
      × (ac : AuthenticatedContent) × (AuthenticatedContent.sign
            (unsigned private_message fc tag)
            suite
            signer
            gc
          ≡ ok ac)
      × (seal_private suite st secret fc ac.auth generation reuse_guard padding_size ≡ ok m)
unfolding protect_private
signed_and_sealed suite signer gc st secret fc generation reuse_guard padding_size tag m h =
    let (is, r) = sender_is fc.sender.type _ m h in
    let (ac, e, r') =
      >>=-eq-ok (AuthenticatedContent.sign (unsigned private_message fc tag) suite signer gc) _ r in
    (is, ac, e, r')
  where
    sender_is :
        (t : ℕ) (r : Result PrivateMessage) (m : PrivateMessage)
        → (if t == member then r else err not_a_member) ≡ ok m
        → (t ≡ member) × (r ≡ ok m)
    sender_is t r m h = ground arith

tag_fits : (b : Bool) (tag t : Bytes) → All IsByte tag → t ≡ (if b then tag else []) → FitsTag b t
tag_fits true tag t bytes h = subst (All IsByte) (sym h) bytes
tag_fits false tag t bytes h = h

same_member :
    (fc : FramedContent)
    → fc.sender.type ≡ member
    → fc.sender.index ≡ 0
    → member_at fc.sender.leaf_index fc ≡ fc
same_member fc is no_index = cc (is, no_index)

rebuilt :
    (ac : AuthenticatedContent) (content : FramedContent)
    → content ≡ ac.content
    → ac.wire_format ≡ private_message
    → record { wire_format = private_message; content = content; auth = ac.auth } ≡ ac
rebuilt ac content e wire = cc (e, wire)

-- What ProtectPrivate has made of a content of a member, UnprotectPrivate opens with the same
-- secrets to that very content and its confirmation tag, given that the AEAD opens what it
-- seals, that the key fits the signer, that the content is well formed for its type, and that
-- sender data, signatures and the tag fit their Go types.
pub unprotect_private-protect_private :
    (suite : Suite) (signer : Signer) (key : Bytes) (signature_pub : ℕ → Result Bytes)
    (gc : Option GroupContext) (st : SecretTree) (secret : Bytes) (fc : FramedContent)
    (generation : ℕ) (reuse_guard : Bytes) (padding_size : ℕ) (tag : Bytes) (m : PrivateMessage)
    → OpensSealed suite
    → IsKeyOf suite signer key
    → signature_pub fc.sender.leaf_index ≡ ok key
    → Fits fc.content_type fc.content
    → fc.sender.index ≡ 0
    → SenderData.InRange (record {
      leaf_index = fc.sender.leaf_index;
      generation = generation;
      reuse_guard = reuse_guard;
    })
    → ((sig : Bytes) (message : Bytes)
        → Cipher.sign_classical suite signer message ≡ ok sig
        → All IsByte sig)
    → All IsByte tag
    → protect_private suite signer gc st secret fc generation reuse_guard padding_size tag ≡ ok m
    → (ac : AuthenticatedContent) × (unprotect_private suite signature_pub gc st secret m ≡ ok ac)
      × (ac.content ≡ fc)
      × (ac.auth.confirmation_tag ≡ (if fc.content_type == commit then tag else []))
unfolding unprotect_private
unprotect_private-protect_private suite signer key signature_pub gc st secret fc generation
      reuse_guard padding_size tag m opens pair known fits no_index in_range bytes tag_bytes h =
    let (is, ac, e, sealed) =
      signed_and_sealed suite signer gc st secret fc generation reuse_guard padding_size tag m h in
    let (verified, same, wire, tagged) =
      verify-sign (unsigned private_message fc tag) ac suite signer key gc pair e in
    let (message, signature) =
      sign-signature (unsigned private_message fc tag) ac suite signer gc e in
    let range : AuthData.InRange fc.content_type ac.auth = record {
      signature = bytes ac.auth.signature message signature;
      confirmation_tag =
          tag_fits (fc.content_type == commit) tag ac.auth.confirmation_tag tag_bytes tagged;
    } in
    let opened =
      open_private-seal_private suite st secret fc ac.auth generation reuse_guard padding_size opens
        m fits range in_range sealed in
    let content : member_at fc.sender.leaf_index fc ≡ ac.content =
      same_member fc is no_index ∙ sym same in
    let whole : open_private suite st secret m ≡ ok ac =
      opened ∙ ap ok (rebuilt ac (member_at fc.sender.leaf_index fc) content wire) in
    let found : signature_pub ac.content.sender.leaf_index ≡ ok key =
      ap (λ c. signature_pub c.sender.leaf_index) same ∙ known in
    (ac, >>=_step _ whole (>>=_step _ found (rw verified)), same, tagged)
