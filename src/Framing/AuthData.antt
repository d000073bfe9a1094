-- ===== src/Framing/AuthData.antt =====
-- mls/framing/framing.go, `FramedContentAuthData`: the signature of a message and, for a commit, its
-- confirmation tag.
use mls_go.Prelude.{
  ℕ, ◌≡◌, refl, [], All, Bool, if◌then◌else◌, ◌==◌, Result, ok, ◌>>=◌, >>=_ok, arith,
}
use mls_go.Syntax.Varint.{IsByte, Bytes}
use mls_go.Syntax.Builder.{Builder, write_opaque_v}
use mls_go.Syntax.Cursor.{Cursor, read_opaque_v}
use mls_go.Syntax.Format.{IsFormat}
use mls_go.Syntax.Format.Opaque.{opaque-IsFormat}
use mls_go.Syntax.Format.Struct.{field, done, same_encoder}
use mls_go.Syntax.Format.Union.{IsFormat-if}
use mls_go.Framing.Content.{commit}

pub record FramedContentAuthData : Type 0 where
  pub signature : Bytes
  pub confirmation_tag : Bytes

-- An opaque vector that is there only if `b` holds, and is empty otherwise.
unfoldable pub write_tag : Bool → Builder → Bytes → Result Builder
write_tag b w tag = if b then write_opaque_v w tag else ok w

unfoldable pub read_tag : Bool → Cursor → Result (Bytes × Cursor)
read_tag b c = if b then read_opaque_v c else ok ([], c)

abbrev pub FitsTag : Bool → Bytes → Type 0
FitsTag b tag = if b then All IsByte tag else (tag ≡ [])

pub tag-IsFormat : (b : Bool) → IsFormat (FitsTag b) (write_tag b) (read_tag b)
unfolding write_tag read_tag
tag-IsFormat b = IsFormat-if b opaque-IsFormat (done [] refl (λ tag h. h))

unfoldable pub marshal : ℕ → Builder → FramedContentAuthData → Result Builder
unfolding write_tag
marshal ct b a = do b ← write_opaque_v b a.signature; write_tag (ct == commit) b a.confirmation_tag

unfoldable pub decode_framed_content_auth_data :
    ℕ → Cursor → Result (FramedContentAuthData × Cursor)
unfolding read_tag
decode_framed_content_auth_data ct c = do
  (signature, c) ← read_opaque_v c
  (confirmation_tag, c) ← read_tag (ct == commit) c
  ok (record { signature = signature; confirmation_tag = confirmation_tag }, c)

pub record InRange (ct : ℕ) (a : FramedContentAuthData) : Type 0 where
  pub signature : All IsByte a.signature
  pub confirmation_tag : FitsTag (ct == commit) a.confirmation_tag

abbrev marshal_flat : ℕ → Builder → FramedContentAuthData → Result Builder
marshal_flat ct b a = do
  b ← write_opaque_v b a.signature
  b ← write_tag (ct == commit) b a.confirmation_tag
  ok b

same_writes :
    (ct : ℕ) (b : Builder) (a : FramedContentAuthData) → marshal ct b a ≡ marshal_flat ct b a
unfolding marshal
same_writes ct b a = simp (>>=_ok)

pub auth_data-IsFormat :
    (ct : ℕ) → IsFormat (InRange ct) (marshal ct) (decode_framed_content_auth_data ct)
unfolding decode_framed_content_auth_data
auth_data-IsFormat ct =
    same_encoder
      (field (λ a. a.signature) opaque-IsFormat (λ a fits. fits.signature)
        λ signature h0.
          field (λ a. a.confirmation_tag) (tag-IsFormat (ct == commit))
            (λ a fits. fits.0.confirmation_tag)
            λ confirmation_tag h1.
              done (record { signature = signature; confirmation_tag = confirmation_tag })
                ((record { signature = h0; confirmation_tag = h1 }, refl), refl)
                (λ a fits. ground arith))
      (λ b a fits. same_writes ct b a)
