-- ===== src/Framing/MlsMessage.antt =====
-- mls/framing/message.go, `MLSMessage`: the envelope of a framed message, and its wire form.
use mls_go.Prelude.{
  ℕ, ◌^◌, ◌<◌, ◌≡◌, refl, sym, ap, subst, Bool, true, false, Option, none, some, Result, ok, err,
  ◌>>=◌, if◌then◌else◌, ◌==◌, missing_body, unsupported_wire_format,
}
use mls_go.Syntax.Varint.{Bytes}
use mls_go.Syntax.Builder.{Builder, write_uint16}
use mls_go.Syntax.Cursor.{Cursor, read_uint16}
use mls_go.Syntax.Format.{IsFormat, IsStrict}
use mls_go.Syntax.Format.Scalars.{uint16-IsFormat, uint16-IsStrict}
use mls_go.Syntax.Format.Struct.{first_field, field, refused, restrict}
use mls_go.Syntax.Format.Union.{branch, case}
use mls_go.Syntax.Format.Message
use mls_go.Framing.PublicMessage
use mls_go.Framing.PublicMessage.{PublicMessage}
use mls_go.Framing.PrivateMessage
use mls_go.Framing.PrivateMessage.{PrivateMessage}

pub record MlsMessage : Type 0 where
  pub version : ℕ
  pub wire_format : ℕ
  pub public_message : Option PublicMessage
  pub private_message : Option PrivateMessage

abbrev of_public : ℕ → ℕ → PublicMessage → MlsMessage
of_public v t m = record {
  version = v;
  wire_format = t;
  public_message = some m;
  private_message = none;
}

abbrev of_private : ℕ → ℕ → PrivateMessage → MlsMessage
of_private v t m = record {
  version = v;
  wire_format = t;
  public_message = none;
  private_message = some m;
}

abbrev write_public : Builder → Option PublicMessage → Result Builder
write_public b none = err missing_body
write_public b (some m) = PublicMessage.marshal b m

abbrev write_private : Builder → Option PrivateMessage → Result Builder
write_private b none = err missing_body
write_private b (some m) = PrivateMessage.marshal b m

-- The `switch` on the wire format.
marshal_body : Builder → MlsMessage → Result Builder
marshal_body b m =
    if m.wire_format == 1
    then write_public b m.public_message
    else if m.wire_format == 2
    then write_private b m.private_message
    else err unsupported_wire_format

-- The zero value of the struct.
abbrev pub zero_message : MlsMessage
zero_message = record {
  version = 0;
  wire_format = 0;
  public_message = none;
  private_message = none;
}

decode_body : MlsMessage → ℕ → ℕ → Cursor → Result (MlsMessage × Cursor)
decode_body r v t c =
    if t == 1
    then (do
      (m, c) ← PublicMessage.decode_public_message c
      ok (record r { version = v; wire_format = t; public_message = some m }, c))
    else if t == 2
    then (do
      (m, c) ← PrivateMessage.decode_private_message c
      ok (record r { version = v; wire_format = t; private_message = some m }, c))
    else err unsupported_wire_format

unfoldable pub marshal : Builder → MlsMessage → Result Builder
unfolding marshal_body
marshal b m = do
  let b = write_uint16 b m.version
  let b = write_uint16 b m.wire_format
  marshal_body b m

-- The first argument is the receiver, whose other body stays as it was.
unfoldable pub decode_mls_message : MlsMessage → Cursor → Result (MlsMessage × Cursor)
unfolding decode_body
decode_mls_message r c = do (v, c) ← read_uint16 c; (wf, c) ← read_uint16 c; decode_body r v wf c

abbrev pub marshal_mls : MlsMessage → Result Bytes
marshal_mls m = Message.marshal_mls marshal m

abbrev pub unmarshal_mls : MlsMessage → Bytes → Result MlsMessage
unmarshal_mls r wire = Message.unmarshal_mls (decode_mls_message r) wire

-- What the wire format says of the bodies; no message with another wire format is written.
abbrev Fits : ℕ → MlsMessage → ℕ → Type 0
Fits v m k =
    if k == 1
    then ((a : PublicMessage) × PublicMessage.InRange a × (m ≡ of_public v 1 a))
    else if k == 2
    then ((a : PrivateMessage) × PrivateMessage.InRange a × (m ≡ of_private v 2 a))
    else (m.version ≡ v)

either :
    (b b' : Bool) (v : ℕ) (m : MlsMessage)
    → (if b
        then ((a : PublicMessage) × PublicMessage.InRange a × (m ≡ of_public v 1 a))
        else if b'
        then ((a : PrivateMessage) × PrivateMessage.InRange a × (m ≡ of_private v 2 a))
        else (m.version ≡ v))
    → m.version ≡ v
either true b' v m (a, range, h) = ap (λ (n : MlsMessage). n.version) h
either false true v m (a, range, h) = ap (λ (n : MlsMessage). n.version) h
either false false v m h = h

version_of : (v : ℕ) (m : MlsMessage) (k : ℕ) → Fits v m k → m.version ≡ v
version_of v m k h = either (k == 1) (k == 2) v m h

pub record InRange (m : MlsMessage) : Type 0 where
  pub version : m.version < 2 ^ 16
  pub tag_fits : m.wire_format < 2 ^ 16
  pub body : Fits m.version m m.wire_format

body-IsFormat :
    (v t : ℕ)
    → IsFormat
        (λ m. Fits v m m.wire_format × (m.wire_format ≡ t))
        marshal_body
        (decode_body zero_message v t)
unfolding marshal_body decode_body
body-IsFormat v t =
    branch (λ m. m.wire_format) t 1
      (case (λ m. m.wire_format) (Fits v) 1 (of_public v)
        PublicMessage.public_message-IsStrict.format (λ m h. h) (λ a q. (a, q, refl)) (λ a. refl)
        (λ b a. refl) t)
      λ _.
        branch (λ m. m.wire_format) t 2
          (case (λ m. m.wire_format) (Fits v) 2 (of_private v)
            PrivateMessage.private_message-IsStrict.format (λ m h. h) (λ a q. (a, q, refl))
            (λ a. refl) (λ b a. refl) t)
          λ _. refused unsupported_wire_format unsupported_wire_format (λ q. cc)

-- What `marshal` writes for a `MlsMessage` in range is appended to the buffer, and is decoded, into a
-- zero receiver, to the same value whatever follows it. Bytes that so decode to a `MlsMessage` are
-- those that `marshal` writes for it, at least one, and the value is in range. Decoding any bytes
-- ends.
pub mls_message-IsStrict : IsStrict InRange marshal (decode_mls_message zero_message)
unfolding marshal decode_mls_message
mls_message-IsStrict =
    first_field (λ m. m.version) uint16-IsStrict (λ m h. h.version)
      λ v small.
        field (λ m. m.wire_format) uint16-IsFormat (λ m h. h.0.tag_fits)
          λ t small_t.
            restrict (body-IsFormat v t)
              (λ m h. (subst (λ (u : ℕ). Fits u m m.wire_format) h.0.1 h.0.0.body, h.1))
              (λ m h.
                let version = version_of v m m.wire_format h.0 in
                (
                  (
                    record {
                      version = subst (λ u. u < 2 ^ 16) (sym version) small;
                      tag_fits = subst (λ u. u < 2 ^ 16) (sym h.1) small_t;
                      body = subst (λ (u : ℕ). Fits u m m.wire_format) (sym version) h.0;
                    },
                    version,
                  ),
                  h.1,
                ))
