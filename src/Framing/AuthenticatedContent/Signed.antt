-- ===== src/Framing/AuthenticatedContent/Signed.antt =====
-- What the signature covers determines the message.
use mls_go.Prelude.{
  ℕ, ◌^◌, ◌<◌, ◌≡◌, refl, sym, ap, subst, ◌∙◌, Option, Bool, true, false, some, none, [], ◌++◌,
  append_assoc, append-nil, ok, err, ◌>>=◌, >>=-eq-ok, if◌then◌else◌, ◌||◌, ◌==◌, no_group_context,
}
use mls_go.Syntax.Varint.{Bytes}
use mls_go.Syntax.Builder.{Builder, new_builder, write_uint16, write_raw, be16}
use mls_go.Syntax.Format.Prefix.{be16_prefix, format_prefix}
use mls_go.Cipher
use mls_go.Cipher.{Suite, Signer}
use mls_go.Cipher.Labels.{IsKeyOf, verify_with_label-sign_with_label}
use mls_go.KeySchedule.GroupContext
use mls_go.KeySchedule.GroupContext.{GroupContext}
use mls_go.Framing.Content
use mls_go.Framing.Content.{FramedContent, framed_content-IsStrict}
use mls_go.Framing.AuthenticatedContent.{
  AuthenticatedContent, signed_context, framed_content_tbs, tbs_label, sign, verify, member,
  new_member_commit,
}

covered_bytes :
    (covered : Bool) (b : Builder) (gc : Option GroupContext) (bytes : Bytes)
    → (if covered
        then (elim gc [
          | none ↦ err no_group_context
          | some gc ↦ (do gcb ← GroupContext.marshal_mls gc; ok (write_raw b gcb))
        ])
        else ok b)
      ≡ ok bytes
    → (s : Bytes) × (bytes ≡ b ++ s)
unfolding write_raw
covered_bytes false b gc bytes h = ([], cc (h, append-nil b))
covered_bytes true b none bytes h = cc
covered_bytes true b (some gc) bytes h =
    let (gcb, e, r) = >>=-eq-ok (GroupContext.marshal_mls gc) _ h in (gcb, cc r)

-- The group context only adds bytes at the end.
signed_context_after :
    (sender : ℕ) (b : Builder) (gc : Option GroupContext) (bytes : Bytes)
    → signed_context sender b gc ≡ ok bytes
    → (s : Bytes) × (bytes ≡ b ++ s)
unfolding signed_context
signed_context_after sender b gc bytes h =
    covered_bytes ((sender == member) || (sender == new_member_commit)) b gc bytes h

abbrev header : ℕ → Builder
header wf = write_uint16 (write_uint16 new_builder 1) wf

header_prefix :
    (wf wf' : ℕ) (a b : Bytes)
    → wf < 2 ^ 16
    → wf' < 2 ^ 16
    → header wf ++ a ≡ header wf' ++ b
    → wf ≡ wf'
unfolding write_uint16 be16
header_prefix wf wf' a b small small' h = (be16_prefix wf wf' a b small small' (cc h)).0

-- The bytes that are signed determine the wire format and the whole content, for contents in
-- range.
pub framed_content_tbs-injective :
    (wf wf' : ℕ) (fc fc' : FramedContent) (gc gc' : Option GroupContext) (bytes : Bytes)
    → wf < 2 ^ 16
    → wf' < 2 ^ 16
    → Content.InRange fc
    → Content.InRange fc'
    → framed_content_tbs wf fc gc ≡ ok bytes
    → framed_content_tbs wf' fc' gc' ≡ ok bytes
    → (wf ≡ wf') × (fc ≡ fc')
unfolding framed_content_tbs
framed_content_tbs-injective wf wf' fc fc' gc gc' bytes small small' range range' h h' =
    let (b, h₁, h₂) = >>=-eq-ok (Content.marshal (header wf) fc) _ h in
    let (b', h₁', h₂') = >>=-eq-ok (Content.marshal (header wf') fc') _ h' in
    let (s, e) = signed_context_after fc.sender.type b gc bytes h₂ in
    let (s', e') = signed_context_after fc'.sender.type b' gc' bytes h₂' in
    let F = framed_content-IsStrict.format in
    let (u, w, k, r) = F.written (header wf) fc b range h₁ in
    let (u', w', k', r') = F.written (header wf') fc' b' range' h₁' in
    let wire : wf ≡ wf' = header_prefix wf wf' (u ++ s) (u' ++ s') small small' (
      sym (append_assoc (header wf) u s)
      ∙ ap (λ t. t ++ s) (sym w)
      ∙ sym e
      ∙ e'
      ∙ ap (λ t. t ++ s') w'
      ∙ append_assoc (header wf') u' s') in
    let moved : Content.marshal (header wf) fc' ≡ ok b' =
      ap (λ (t : ℕ). Content.marshal (header t) fc') wire ∙ h₁' in
    (wire, (format_prefix F (header wf) fc fc' b b' s s' range range' h₁ moved (sym e ∙ e')).0)

ok_same : {A : Type 0} {a b : A} → ok a ≡ ok b → a ≡ b
ok_same h = cc h

-- A content that `sign` has signed is accepted by `verify` with the signer's key.
pub verify-sign :
    (ac signed : AuthenticatedContent) (suite : Suite) (signer : Signer) (key : Bytes)
    (gc : Option GroupContext)
    → IsKeyOf suite signer key
    → sign ac suite signer gc ≡ ok signed
    → (verify signed suite key gc ≡ true)
      × (signed.content ≡ ac.content)
      × (signed.wire_format ≡ ac.wire_format)
      × (signed.auth.confirmation_tag ≡ ac.auth.confirmation_tag)
unfolding sign verify
verify-sign ac signed suite signer key gc pair h =
    let (tbs, e, r) = >>=-eq-ok (framed_content_tbs ac.wire_format ac.content gc) _ h in
    let (sig, e₂, r₂) = >>=-eq-ok (Cipher.sign_with_label suite signer _ tbs) _ r in
    subst
      (λ (t : AuthenticatedContent).
        (verify t suite key gc ≡ true)
        × (t.content ≡ ac.content)
        × (t.wire_format ≡ ac.wire_format)
        × (t.auth.confirmation_tag ≡ ac.auth.confirmation_tag))
      (ok_same r₂)
      (
        rw (verify, e) (verify_with_label-sign_with_label suite signer key _ tbs sig pair e₂),
        refl,
        refl,
        refl,
      )

-- The signature is one of the signer's.
pub sign-signature :
    (ac signed : AuthenticatedContent) (suite : Suite) (signer : Signer) (gc : Option GroupContext)
    → sign ac suite signer gc ≡ ok signed
    → (message : Bytes) × (Cipher.sign_classical suite signer message ≡ ok signed.auth.signature)
unfolding sign Cipher.sign_with_label
sign-signature ac signed suite signer gc h =
    let (tbs, e, r) = >>=-eq-ok (framed_content_tbs ac.wire_format ac.content gc) _ h in
    let (sig, e₂, r₂) = >>=-eq-ok (Cipher.sign_with_label suite signer tbs_label tbs) _ r in
    let (message, e₃, r₃) = >>=-eq-ok (Cipher.labeled_context tbs_label tbs) _ e₂ in
    (message, r₃ ∙ ap (λ (t : AuthenticatedContent). ok t.auth.signature) (ok_same r₂))
