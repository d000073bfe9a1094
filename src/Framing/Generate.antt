-- ===== src/Framing/Generate.antt =====
-- mls/framing/generate.go, SignCommit: the signature of a commit and the input of its transcript hash.
use mls_go.Prelude.{
  ℕ, ◌+◌, ◌-◌, ◌^◌, ◌<◌, ◌≡◌, sym, ap, subst, ◌∙◌, ap₂, false, ◌≤◌, content_too_short, Option, [],
  ◌++◌, length, take, drop, replicate, length-append, length-replicate, append_assoc,
  take-append_length, drop-append_length, if◌then◌else◌, ltb, Result, ok, err, ◌>>=◌, >>=-eq-ok,
  arith,
}
use mls_go.Syntax.Varint
use mls_go.Syntax.Varint.{Bytes}
use mls_go.Syntax.Varint.RoundTrip.{read_varint-write_varint}
use mls_go.Syntax.Builder.{new_builder, write_uint16, write_opaque_v}
use mls_go.Syntax.Format.Opaque.{write_opaque_v-ok}
use mls_go.Cipher.{Suite, Signer, hash_len}
use mls_go.KeySchedule.GroupContext.{GroupContext}
use mls_go.KeySchedule.Transcript.{split_authenticated_content}
use mls_go.Framing.Content
use mls_go.Framing.Content.{FramedContent, commit}
use mls_go.Framing.AuthData
use mls_go.Framing.AuthenticatedContent
use mls_go.Framing.AuthenticatedContent.{AuthenticatedContent}

unfoldable pub sign_commit :
    Suite → Signer → Option GroupContext → FramedContent → ℕ → Result (Bytes × Bytes)
sign_commit suite signer gc fc wf = do
  ac ←
      AuthenticatedContent.sign
        (record {
          wire_format = wf;
          content = fc;
          auth = record { signature = []; confirmation_tag = [] };
        })
        suite signer gc
  let b = write_uint16 new_builder wf
  b ← Content.marshal b fc
  b ← write_opaque_v b ac.auth.signature
  ok (b, ac.auth.signature)

enough : (a b : ℕ) → b ≤ a → ltb a b ≡ false
enough a b h = ground arith

cut :
    (input hdr tag : Bytes) (f n : ℕ)
    → f ≡ length hdr + length tag
    → n ≡ length tag
    → length (input ++ (hdr ++ tag)) ≡ length input + (length hdr + length tag)
    → ◌≡◌ {A = Result (Bytes × Bytes)}
        (if ltb (length (input ++ (hdr ++ tag))) f
          then err content_too_short
          else ok (
            take (length (input ++ (hdr ++ tag)) - f) (input ++ (hdr ++ tag)),
            drop (length (input ++ (hdr ++ tag)) - n) (input ++ (hdr ++ tag)),
          ))
        (ok (input, tag))
cut input hdr tag f n long size whole =
    let before : length (input ++ (hdr ++ tag)) - f ≡ length input = omega arith in
    let first : take (length (input ++ (hdr ++ tag)) - f) (input ++ (hdr ++ tag)) ≡ input =
      ap (λ (t : ℕ). take t (input ++ (hdr ++ tag))) before
      ∙ take-append_length input (hdr ++ tag) in
    let inner : length (input ++ (hdr ++ tag)) - n ≡ length (input ++ hdr) =
      omega (arith, length-append input hdr) in
    let second : drop (length (input ++ (hdr ++ tag)) - n) (input ++ (hdr ++ tag)) ≡ tag =
      ap (λ (t : ℕ). drop t (input ++ (hdr ++ tag))) inner
      ∙ ap (drop (length (input ++ hdr))) (sym (append_assoc input hdr tag))
      ∙ drop-append_length (input ++ hdr) tag in
    rw (enough (length (input ++ (hdr ++ tag))) f (omega arith))
      (ap₂ (λ (a b : Bytes). ok (a, b)) first second)

-- The field with the tag is peeled off.
split_field :
    (suite : Suite) (input tag hdr : Bytes)
    → Varint.write_varint (length tag) ≡ ok hdr
    → length tag ≡ hash_len suite
    → split_authenticated_content suite (input ++ (hdr ++ tag)) ≡ ok (input, tag)
unfolding split_authenticated_content Varint.write_opaque_v
split_field suite input tag hdr h size =
    let n = hash_len suite in
    let blank : Bytes = replicate n 0 in
    let width : length blank ≡ n = length-replicate n 0 in
    let field : Varint.write_opaque_v blank ≡ ok (hdr ++ blank) = rw (width, sym size, h) in
    let long : length (hdr ++ blank) ≡ length hdr + length tag =
      omega (arith, length-append hdr blank, width, size) in
    let whole : length (input ++ (hdr ++ tag)) ≡ length input + (length hdr + length tag) =
      omega (arith, length-append input (hdr ++ tag), length-append hdr tag) in
    rw (split_authenticated_content, field)
      (cut input hdr tag (length (hdr ++ blank)) n long (sym size) whole)

-- The input of the transcript hash that SignCommit returns is the one that
-- SplitAuthenticatedContent takes from the bytes of the commit with a confirmation tag of the
-- length of the hash, below 2^30, and those bytes can be written.
pub split_authenticated_content-sign_commit :
    (suite : Suite) (signer : Signer) (gc : Option GroupContext) (fc : FramedContent) (wf : ℕ)
    (input signature tag : Bytes)
    → fc.content_type ≡ commit
    → length tag ≡ hash_len suite
    → hash_len suite < 2 ^ 30
    → sign_commit suite signer gc fc wf ≡ ok (input, signature)
    → (wire : Bytes) × (AuthenticatedContent.marshal_mls (record {
      wire_format = wf;
      content = fc;
      auth = record { signature = signature; confirmation_tag = tag };
    })
        ≡ ok wire)
      × (split_authenticated_content suite wire ≡ ok (input, tag))
unfolding sign_commit AuthenticatedContent.marshal_mls AuthData.marshal
split_authenticated_content-sign_commit suite signer gc fc wf input signature tag kind size small
      h =
    let (ac, signed, r) = >>=-eq-ok (AuthenticatedContent.sign _ suite signer gc) _ h in
    let (b, e₁, r₁) = >>=-eq-ok (Content.marshal (write_uint16 new_builder wf) fc) _ r in
    let (b', e₂, r₂) = >>=-eq-ok (write_opaque_v b ac.auth.signature) _ r₁ in
    let (hdr, w, back, bytes, some) = read_varint-write_varint (length tag) [] (omega arith) in
    let parts : (b', ac.auth.signature) ≡ (input, signature) = cc r₂ in
    let sealed : write_opaque_v b signature ≡ ok input =
      subst (λ (t : Bytes × Bytes). write_opaque_v b t.1 ≡ ok t.0) parts e₂ in
    let ends : write_opaque_v input tag ≡ ok (input ++ (hdr ++ tag)) =
      write_opaque_v-ok input tag hdr w in
    (input ++ (hdr ++ tag), rw (e₁, sealed, kind, ends), split_field suite input tag hdr w size)
