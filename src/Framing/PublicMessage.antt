-- ===== src/Framing/PublicMessage.antt =====
-- mls/framing/public.go, `PublicMessage`: a signed message in the clear, and its wire form.
pub mod Protection
use mls_go.Prelude.{
  ℕ, ◌≡◌, refl, sym, ap, subst, ◌∙◌, All, if◌then◌else◌, ◌==◌, Result, ok, err, ◌>>=◌, >>=_ok,
  arith,
}
use mls_go.Syntax.Varint.{IsByte, Bytes}
use mls_go.Syntax.Builder.{Builder}
use mls_go.Syntax.Cursor.{Cursor}
use mls_go.Syntax.Format.{IsFormat, IsStrict}
use mls_go.Syntax.Format.Struct.{first_field, field, done, same_encoder, same-IsStrict}
use mls_go.Framing.Content
use mls_go.Framing.Content.{FramedContent}
use mls_go.Framing.AuthData
use mls_go.Framing.AuthData.{FramedContentAuthData, FitsTag, write_tag, read_tag, tag-IsFormat}

-- SenderTypeMember
abbrev pub member : ℕ
member = 1

pub record PublicMessage : Type 0 where
  pub content : FramedContent
  pub auth : FramedContentAuthData
  pub membership_tag : Bytes

unfoldable pub marshal : Builder → PublicMessage → Result Builder
marshal b m = do
  b ← Content.marshal b m.content
  b ← AuthData.marshal m.content.content_type b m.auth
  write_tag (m.content.sender.type == member) b m.membership_tag

unfoldable pub decode_public_message : Cursor → Result (PublicMessage × Cursor)
decode_public_message c = do
  (content, c) ← Content.decode_framed_content c
  (auth, c) ← AuthData.decode_framed_content_auth_data content.content_type c
  (membership_tag, c) ← read_tag (content.sender.type == member) c
  ok (record { content = content; auth = auth; membership_tag = membership_tag }, c)

-- The tags that the content calls for are bytes, and the others empty.
pub record InRange (m : PublicMessage) : Type 0 where
  pub content : Content.InRange m.content
  pub auth : AuthData.InRange m.content.content_type m.auth
  pub membership_tag : FitsTag (m.content.sender.type == member) m.membership_tag

-- The same writes, with the tests made on a content that is fixed first.
abbrev marshal_rest : FramedContent → Builder → PublicMessage → Result Builder
marshal_rest content b m = do
  b ← AuthData.marshal content.content_type b m.auth
  b ← write_tag (content.sender.type == member) b m.membership_tag
  ok b

abbrev marshal_flat : Builder → PublicMessage → Result Builder
marshal_flat b m = do b ← Content.marshal b m.content; marshal_rest m.content b m

same_writes : (b : Builder) (m : PublicMessage) → marshal b m ≡ marshal_flat b m
unfolding marshal
same_writes b m = simp (>>=_ok)

rest-IsFormat :
    (content : FramedContent)
    → Content.InRange content
    → IsFormat
        (λ m. InRange m × (m.content ≡ content))
        (marshal_rest content)
        (λ c. AuthData.decode_framed_content_auth_data content.content_type c >>= λ (auth, c).
          read_tag (content.sender.type == member) c >>= λ (membership_tag, c).
          ok (record { content = content; auth = auth; membership_tag = membership_tag }, c))
rest-IsFormat content h0 =
    field (λ m. m.auth) (AuthData.auth_data-IsFormat content.content_type)
      (λ m fits. subst (λ t. AuthData.InRange t.content_type m.auth) fits.1 fits.0.auth)
      λ auth h1.
        field (λ m. m.membership_tag) (tag-IsFormat (content.sender.type == member))
          (λ m fits.
            subst (λ t. FitsTag (t.sender.type == member) m.membership_tag) fits.0.1
              fits.0.0.membership_tag)
          λ membership_tag h2.
            done (record { content = content; auth = auth; membership_tag = membership_tag })
              (((record { content = h0; auth = h1; membership_tag = h2 }, refl), refl), refl)
              (λ m fits. same_message m content auth membership_tag fits.0.0.1 fits.0.1 fits.1)
  where
    same_message :
        (m : PublicMessage) (content : FramedContent) (auth : FramedContentAuthData) (tag : Bytes)
        → m.content ≡ content
        → m.auth ≡ auth
        → m.membership_tag ≡ tag
        → m ≡ record { content = content; auth = auth; membership_tag = tag }
    same_message m content auth tag h0 h1 h2 = cc (h0, h1, h2)

-- What `marshal` writes for a `PublicMessage` in range is appended to the buffer, and is decoded to the same
-- value whatever follows it. Bytes that decode to a `PublicMessage` are those that `marshal` writes for it,
-- at least one, and the value is in range. Decoding any bytes ends.
pub public_message-IsStrict : IsStrict InRange marshal decode_public_message
unfolding decode_public_message
public_message-IsStrict =
    same-IsStrict
      (first_field (λ m. m.content) Content.framed_content-IsStrict (λ m fits. fits.content)
        λ content h0.
          same_encoder (rest-IsFormat content h0) (λ b m fits. ap (λ t. marshal_rest t b m) fits.1))
      (λ b m fits. same_writes b m)
