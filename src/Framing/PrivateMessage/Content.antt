-- ===== src/Framing/PrivateMessage/Content.antt =====
-- mls/framing/private.go: what a private message encrypts, the content with its signature and a
-- padding of zeros.
use mls_go.Prelude.{
  ℕ, zero, suc, ◌≡◌, refl, sym, ap, ◌∙◌, Bool, true, false, [], ◌∷◌, ◌++◌, append_assoc, replicate,
  if◌then◌else◌, ◌==◌, Result, ok, err, ◌>>=◌, >>=-eq-ok, nonzero_padding,
}
use mls_go.Syntax.Varint.{Bytes}
use mls_go.Syntax.Builder.{new_builder, write_raw}
use mls_go.Syntax.Cursor.{new_cursor, rest}
use mls_go.Framing.Content.{FramedContent, Fits, marshal_content, decode_content, content-IsFormat}
use mls_go.Framing.AuthData
use mls_go.Framing.AuthData.{FramedContentAuthData, auth_data-IsFormat}

unfoldable pub private_message_content : FramedContent → FramedContentAuthData → ℕ → Result Bytes
private_message_content fc auth padding_size = do
  b ← marshal_content fc.content_type new_builder fc.content
  b ← AuthData.marshal fc.content_type b auth
  ok (write_raw b (replicate padding_size 0))

-- `for _, x := range c.Rest() { if x != 0 { return ... } }`
unfoldable pub all_zero : Bytes → Bool
all_zero [] = true
all_zero (x ∷ xs) = let rest = all_zero xs in if x == 0 then rest else false

unfoldable pub decode_private_message_content : Bytes → ℕ → Result (Bytes × FramedContentAuthData)
decode_private_message_content pt ct = do
  (content, c) ← decode_content ct (new_cursor pt)
  (auth, c) ← AuthData.decode_framed_content_auth_data ct c
  if all_zero (rest c) then ok (content, auth) else err nonzero_padding

all_zero-replicate : (n : ℕ) → all_zero (replicate n 0) ≡ true
unfolding all_zero
all_zero-replicate zero = refl
all_zero-replicate (suc n) = all_zero-replicate n

ok_same : {a b : Bytes} → ok a ≡ ok b → a ≡ b
ok_same h = cc h

-- What is padded and what is decoded.
pub decode_private_message_content-private_message_content :
    (fc : FramedContent) (auth : FramedContentAuthData) (padding_size : ℕ) (pt : Bytes)
    → Fits fc.content_type fc.content
    → AuthData.InRange fc.content_type auth
    → private_message_content fc auth padding_size ≡ ok pt
    → decode_private_message_content pt fc.content_type ≡ ok (fc.content, auth)
unfolding private_message_content decode_private_message_content write_raw
decode_private_message_content-private_message_content fc auth padding_size pt fits range h =
    let padding : Bytes = replicate padding_size 0 in
    let (b, e₁, r₁) = >>=-eq-ok (marshal_content fc.content_type new_builder fc.content) _ h in
    let (b', e₂, r₂) = >>=-eq-ok (AuthData.marshal fc.content_type b auth) _ r₁ in
    let (s, w, k, back) = (content-IsFormat fc.content_type).written [] fc.content b fits e₁ in
    let (s', w', k', back') = (auth_data-IsFormat fc.content_type).written b auth b' range e₂ in
    let padded : b' ++ padding ≡ pt = ok_same r₂ in
    let whole : pt ≡ s ++ (s' ++ padding) =
      sym padded ∙ ap (λ t. t ++ padding) (w' ∙ ap (λ t. t ++ s') w) ∙ append_assoc s s' padding in
    rw (whole, back (s' ++ padding), back' padding, all_zero-replicate padding_size)
