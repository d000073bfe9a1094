-- ===== src/Framing/PublicMessage/Protection.antt =====
-- mls/framing/public.go: ProtectPublic and UnprotectPublic.
use mls_go.Prelude.{
  ℕ, ◌≡◌, refl, sym, ap, ap₂, subst, ◌∙◌, Bool, true, false, Option, [], if◌then◌else◌, ◌==◌,
  Result, ok, err, ◌>>=◌, >>=-eq-ok, membership_tag_failed, signature_failed,
}
use mls_go.Prelude.Dict.{bytes_equal, bytes_equal_self}
use mls_go.Syntax.Varint.{Bytes}
use mls_go.Syntax.Builder.{new_builder, write_raw}
use mls_go.Cipher
use mls_go.Cipher.{Suite, Signer}
use mls_go.Cipher.Labels.{IsKeyOf}
use mls_go.KeySchedule.GroupContext.{GroupContext}
use mls_go.Framing.Content.{FramedContent, commit}
use mls_go.Framing.AuthData
use mls_go.Framing.AuthData.{FramedContentAuthData}
use mls_go.Framing.AuthenticatedContent
use mls_go.Framing.AuthenticatedContent.{AuthenticatedContent, public_message, framed_content_tbs}
use mls_go.Framing.AuthenticatedContent.Signed.{verify-sign}
use mls_go.Framing.PublicMessage.{PublicMessage, member}

unfoldable pub authenticated_content_tbm :
    ℕ → FramedContent → FramedContentAuthData → Option GroupContext → Result Bytes
authenticated_content_tbm wf fc auth gc = do
  tbs ← framed_content_tbs wf fc gc
  let b = write_raw new_builder tbs
  AuthData.marshal fc.content_type b auth

-- The AuthenticatedContent that is signed: a commit carries its confirmation tag.
abbrev pub unsigned : ℕ → FramedContent → Bytes → AuthenticatedContent
unsigned wf fc confirmation_tag = record {
  wire_format = wf;
  content = fc;
  auth = record {
    signature = [];
    confirmation_tag = if fc.content_type == commit then confirmation_tag else [];
  };
}

unfoldable pub protect_public :
    Suite → Signer → Option GroupContext → Bytes → FramedContent → Bytes → Result PublicMessage
protect_public suite signer gc membership_key fc confirmation_tag = do
  ac ← AuthenticatedContent.sign (unsigned public_message fc confirmation_tag) suite signer gc
  if fc.sender.type == member
      then (do
        tbm ← authenticated_content_tbm public_message fc ac.auth gc
        ok (record {
          content = ac.content;
          auth = ac.auth;
          membership_tag = Cipher.mac suite membership_key tbm;
        }))
      else ok (record { content = ac.content; auth = ac.auth; membership_tag = [] })

-- The check of the membership tag.
unfoldable pub check_membership :
    Suite
    → Option GroupContext
    → Bytes
    → FramedContent
    → FramedContentAuthData
    → Bytes
    → Result (Unit {0})
check_membership suite gc membership_key content auth membership_tag =
    if content.sender.type == member
    then (do
      tbm ← authenticated_content_tbm public_message content auth gc
      if bytes_equal (Cipher.mac suite membership_key tbm) membership_tag
          then ok tt
          else err membership_tag_failed)
    else ok tt

unfoldable pub unprotect_public :
    Suite → Bytes → Option GroupContext → Bytes → PublicMessage → Result AuthenticatedContent
unfolding check_membership
unprotect_public suite signature_pub gc membership_key m = do
  checked ← check_membership suite gc membership_key m.content m.auth m.membership_tag
  let ac : AuthenticatedContent = record {
    wire_format = public_message;
    content = m.content;
    auth = m.auth;
  }
  if AuthenticatedContent.verify ac suite signature_pub gc then ok ac else err signature_failed

-- mls/framing/generate.go: AssembleCommitPublic
unfoldable pub assemble_commit_public :
    Suite → Option GroupContext → Bytes → FramedContent → Bytes → Bytes → Result PublicMessage
assemble_commit_public suite gc membership_key fc signature conf_tag = do
  let auth : FramedContentAuthData = record { signature = signature; confirmation_tag = conf_tag }
  tbm ← authenticated_content_tbm public_message fc auth gc
  ok (record { content = fc; auth = auth; membership_tag = Cipher.mac suite membership_key tbm })

ok_same : {A : Type 0} {a b : A} → ok a ≡ ok b → a ≡ b
ok_same h = cc h

-- A tag that was made is the tag that is checked.
tag_made :
    (needed : Bool) (tbm : Result Bytes) (mac : Bytes → Bytes) (content : FramedContent)
    (auth : FramedContentAuthData) (m : PublicMessage)
    → (if needed
        then (do t ← tbm; ok (record { content = content; auth = auth; membership_tag = mac t }))
        else ok (record { content = content; auth = auth; membership_tag = [] }))
      ≡ ok m
    → (m.content ≡ content)
      × (m.auth ≡ auth)
      × (◌≡◌ {A = Result (Unit {0})}
          (if needed
            then (do
              t ← tbm
              if bytes_equal (mac t) m.membership_tag then ok tt else err membership_tag_failed)
            else ok tt)
          (ok tt))
tag_made false tbm mac content auth m h =
    subst
      (λ (m : PublicMessage).
        (m.content ≡ content) × (m.auth ≡ auth) × (◌≡◌ {A = Result (Unit {0})} (ok tt) (ok tt)))
      (ok_same h) (refl, refl, refl)
tag_made true tbm mac content auth m h =
    let (t, e, r) = >>=-eq-ok tbm _ h in
    subst
      (λ (m : PublicMessage).
        (m.content ≡ content)
        × (m.auth ≡ auth)
        × (◌≡◌ {A = Result (Unit {0})}
            (do
              t ← tbm
              if bytes_equal (mac t) m.membership_tag then ok tt else err membership_tag_failed)
            (ok tt)))
      (ok_same r) (refl, refl, rw (e, bytes_equal_self (mac t)))

module _ (suite : Suite) (signer : Signer) (key : Bytes) (gc : Option GroupContext)
    (membership_key : Bytes) (fc : FramedContent) (confirmation_tag : Bytes) where
  -- What ProtectPublic has made of a content, UnprotectPublic accepts with the same membership
  -- key and group context and a key that fits the signer, and returns that content; the message
  -- carries it, with the confirmation tag if it is a commit.
  pub unprotect_public-protect_public :
      (m : PublicMessage)
      → IsKeyOf suite signer key
      → protect_public suite signer gc membership_key fc confirmation_tag ≡ ok m
      → (unprotect_public suite key gc membership_key m
          ≡ ok (record { wire_format = public_message; content = fc; auth = m.auth }))
        × (m.content ≡ fc)
        × (m.auth.confirmation_tag ≡ (if fc.content_type == commit then confirmation_tag else []))
  unfolding protect_public unprotect_public check_membership
  unprotect_public-protect_public m pair h =
      let (ac, signed, r) =
        >>=-eq-ok
          (AuthenticatedContent.sign (unsigned public_message fc confirmation_tag) suite signer gc)
          _ h in
      let (verified, same, wire, tag) =
        verify-sign (unsigned public_message fc confirmation_tag) ac suite signer key gc pair
          signed in
      let (content, auth, tagged) =
        tag_made (fc.sender.type == member) (authenticated_content_tbm public_message fc ac.auth gc)
          (Cipher.mac suite membership_key) ac.content ac.auth m r in
      let checked : check_membership suite gc membership_key m.content m.auth m.membership_tag
          ≡ ok tt =
        ap₂ (λ c a. check_membership suite gc membership_key c a m.membership_tag) (content ∙ same)
          auth
        ∙ tagged in
      (
        accepted m.content m.auth m.membership_tag ac content auth wire checked verified
            ∙ ap (λ c. ok (record { wire_format = public_message; content = c; auth = m.auth }))
                (content ∙ same),
        content ∙ same,
        ap (λ a. a.confirmation_tag) auth ∙ tag,
      )
    where
      accepted :
          (content : FramedContent) (auth : FramedContentAuthData) (membership_tag : Bytes)
          (ac : AuthenticatedContent)
          → content ≡ ac.content
          → auth ≡ ac.auth
          → ac.wire_format ≡ public_message
          → check_membership suite gc membership_key content auth membership_tag ≡ ok tt
          → AuthenticatedContent.verify ac suite key gc ≡ true
          → unprotect_public suite key gc membership_key
              (record { content = content; auth = auth; membership_tag = membership_tag })
            ≡ ok (record { wire_format = public_message; content = content; auth = auth })
      accepted content auth membership_tag ac e₁ e₂ e₃ checked verified =
          let same : ac ≡ record { wire_format = public_message; content = content; auth = auth } =
            cc (e₁, e₂, e₃) in
          rw (
            checked,
            ap (λ (t : AuthenticatedContent). AuthenticatedContent.verify t suite key gc) (sym same)
                ∙ verified,
          )
