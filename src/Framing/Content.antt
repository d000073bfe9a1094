-- ===== src/Framing/Content.antt =====
-- mls/framing/framing.go, `FramedContent`: the signed payload of a message, and its wire form. The
-- inner content is kept as bytes: application data behind its length, a proposal or a commit
-- verbatim.
use mls_go.Prelude.{
  ℕ, ◌^◌, ◌<◌, ◌≡◌, refl, ap, subst, All, if◌then◌else◌, ◌==◌, Result, ok, err, ◌>>=◌, >>=_ok,
  arith, invalid_content_type,
}
use mls_go.Syntax.Varint.{IsByte, Bytes}
use mls_go.Syntax.Builder.{Builder, write_opaque_v, write_uint8, write_uint64, write_raw}
use mls_go.Syntax.Cursor.{Cursor, read_opaque_v, read_uint8, read_uint64}
use mls_go.Syntax.Format.{IsFormat, IsStrict}
use mls_go.Syntax.Format.Opaque.{opaque-IsFormat, opaque-IsStrict}
use mls_go.Syntax.Format.Scalars.{uint8-IsFormat, uint64-IsFormat}
use mls_go.Syntax.Format.Struct.{first_field, field, done, refused, same_encoder, same-IsStrict}
use mls_go.Syntax.Format.Union.{IsFormat-if}
use mls_go.Framing.Skim.{skim, skim_proposal, skim_commit}
use mls_go.Framing.Skim.Rules.{IsSpan, skim-IsFormat}
use mls_go.Framing.Skim.Spans.{skim_proposal-IsSkim, skim_commit-IsSkim}
use mls_go.Framing.Sender
use mls_go.Framing.Sender.{Sender}

-- The content types
abbrev pub application : ℕ
application = 1

abbrev pub proposal : ℕ
proposal = 2

abbrev pub commit : ℕ
commit = 3

unfoldable pub marshal_content : ℕ → Builder → Bytes → Result Builder
marshal_content ct b content =
    if ct == application
    then write_opaque_v b content
    else if ct == proposal
    then ok (write_raw b content)
    else if ct == commit
    then ok (write_raw b content)
    else err invalid_content_type

unfoldable pub decode_content : ℕ → Cursor → Result (Bytes × Cursor)
decode_content ct c =
    if ct == application
    then read_opaque_v c
    else if ct == proposal
    then skim skim_proposal c
    else if ct == commit
    then skim skim_commit c
    else err invalid_content_type

-- The bytes that a content of this type may be.
abbrev pub Fits : ℕ → Bytes → Type 0
Fits ct content =
    if ct == application
    then All IsByte content
    else if ct == proposal
    then IsSpan skim_proposal content
    else if ct == commit
    then IsSpan skim_commit content
    else Unit {0}

pub content-IsFormat : (ct : ℕ) → IsFormat (Fits ct) (marshal_content ct) (decode_content ct)
unfolding marshal_content decode_content
content-IsFormat ct = IsFormat-if (ct == application) opaque-IsFormat (
    IsFormat-if (ct == proposal) (skim-IsFormat skim_proposal-IsSkim) (
      IsFormat-if (ct == commit) (skim-IsFormat skim_commit-IsSkim)
        (refused invalid_content_type invalid_content_type (λ q. cc))))

pub record FramedContent : Type 0 where
  pub group_id : Bytes
  pub epoch : ℕ
  pub sender : Sender
  pub authenticated_data : Bytes
  pub content_type : ℕ
  pub content : Bytes

unfoldable pub marshal : Builder → FramedContent → Result Builder
marshal b fc = do
  b ← write_opaque_v b fc.group_id
  let b = write_uint64 b fc.epoch
  b ← Sender.marshal b fc.sender
  b ← write_opaque_v b fc.authenticated_data
  let b = write_uint8 b fc.content_type
  marshal_content fc.content_type b fc.content

unfoldable pub decode_framed_content : Cursor → Result (FramedContent × Cursor)
decode_framed_content c = do
  (group_id, c) ← read_opaque_v c
  (epoch, c) ← read_uint64 c
  (sender, c) ← Sender.decode_sender c
  (authenticated_data, c) ← read_opaque_v c
  (content_type, c) ← read_uint8 c
  (content, c) ← decode_content content_type c
  ok (
    record {
      group_id = group_id;
      epoch = epoch;
      sender = sender;
      authenticated_data = authenticated_data;
      content_type = content_type;
      content = content;
    },
    c,
  )

-- The fields hold what their Go types can hold, and a proposal or a commit is one.
pub record InRange (fc : FramedContent) : Type 0 where
  pub group_id : All IsByte fc.group_id
  pub epoch : fc.epoch < 2 ^ 64
  pub sender : Sender.InRange fc.sender
  pub authenticated_data : All IsByte fc.authenticated_data
  pub content_type : fc.content_type < 2 ^ 8
  pub content : Fits fc.content_type fc.content

-- The same writes with the content's as the step before the last.
abbrev marshal_flat : Builder → FramedContent → Result Builder
marshal_flat b fc = do
  b ← write_opaque_v b fc.group_id
  let b = write_uint64 b fc.epoch
  b ← Sender.marshal b fc.sender
  b ← write_opaque_v b fc.authenticated_data
  let b = write_uint8 b fc.content_type
  b ← marshal_content fc.content_type b fc.content
  ok b

typed :
    (b : Builder) (fc : FramedContent) (ct : ℕ)
    → fc.content_type ≡ ct
    → (marshal_content fc.content_type b fc.content >>= λ b'. ok b')
      ≡ (marshal_content ct b fc.content >>= λ b'. ok b')
typed b fc ct h = ap (λ (t : ℕ). marshal_content t b fc.content >>= λ b'. ok b') h

same_writes : (b : Builder) (fc : FramedContent) → marshal b fc ≡ marshal_flat b fc
unfolding marshal
same_writes b fc = simp (>>=_ok)

flat-IsStrict : IsStrict InRange marshal_flat decode_framed_content
unfolding decode_framed_content
flat-IsStrict =
    first_field (λ fc. fc.group_id) opaque-IsStrict (λ fc fits. fits.group_id)
      λ group_id h0.
        field (λ fc. fc.epoch) uint64-IsFormat (λ fc fits. fits.0.epoch)
          λ epoch h1.
            field (λ fc. fc.sender) Sender.sender-IsStrict.format (λ fc fits. fits.0.0.sender)
              λ sender h2.
                field (λ fc. fc.authenticated_data) opaque-IsFormat
                  (λ fc fits. fits.0.0.0.authenticated_data)
                  λ authenticated_data h3.
                    field (λ fc. fc.content_type) uint8-IsFormat
                      (λ fc fits. fits.0.0.0.0.content_type)
                      λ content_type h4.
                        same_encoder
                          (field (λ fc. fc.content) (content-IsFormat content_type)
                            (λ fc fits.
                              subst (λ (t : ℕ). Fits t fc.content) fits.1 fits.0.0.0.0.0.content)
                            λ content h5.
                              done
                                (record {
                                  group_id = group_id;
                                  epoch = epoch;
                                  sender = sender;
                                  authenticated_data = authenticated_data;
                                  content_type = content_type;
                                  content = content;
                                })
                                (
                                  (
                                    (
                                      (
                                        (
                                          (
                                            record {
                                              group_id = h0;
                                              epoch = h1;
                                              sender = h2;
                                              authenticated_data = h3;
                                              content_type = h4;
                                              content = h5;
                                            },
                                            refl,
                                          ),
                                          refl,
                                        ),
                                        refl,
                                      ),
                                      refl,
                                    ),
                                    refl,
                                  ),
                                  refl,
                                )
                                (λ fc fits. ground arith))
                          (λ b fc fits. typed b fc content_type fits.1)

pub framed_content-IsStrict : IsStrict InRange marshal decode_framed_content
framed_content-IsStrict = same-IsStrict flat-IsStrict (λ b fc fits. same_writes b fc)
