-- ===== src/Tree/Credential.antt =====
-- mls/tree/credential.go: a credential is basic or X.509; its wire form.
use mls_go.Prelude.{
  ℕ, ◌^◌, ◌<◌, ◌≡◌, refl, sym, List, [], All, Result, ok, err, ◌>>=◌, if◌then◌else◌, ◌==◌,
}
use mls_go.Syntax.Varint.{IsByte, Bytes}
use mls_go.Syntax.Builder.{Builder, write_opaque_v, write_uint16}
use mls_go.Syntax.Cursor.{Cursor, read_opaque_v, read_uint16}
use mls_go.Syntax.Vector.{write_vector_v, read_vector_v}
use mls_go.Syntax.Format.{IsFormat, IsStrict}
use mls_go.Syntax.Format.Opaque.{opaque-IsFormat}
use mls_go.Syntax.Format.Scalars.{uint16-IsStrict}
use mls_go.Syntax.Format.Vector.{vector-IsStrict}
use mls_go.Syntax.Format.Struct.{first_field, refused, restrict}
use mls_go.Syntax.Format.Union.{branch, case}
use mls_go.Syntax.Format.Message
use mls_go.Prelude.{subst, unsupported_credential}
use mls_go.Tree.Certificate
use mls_go.Tree.Certificate.{Certificate}

pub record Credential : Type 0 where
  pub credential_type : ℕ
  pub identity : Bytes
  pub certificates : List Certificate

abbrev of_basic : ℕ → Bytes → Credential
of_basic t a = record { credential_type = t; identity = a; certificates = [] }

abbrev of_x509 : ℕ → List Certificate → Credential
of_x509 t a = record { credential_type = t; identity = []; certificates = a }

-- The `switch` on the tag.
marshal_body : Builder → Credential → Result Builder
marshal_body b cred =
    if cred.credential_type == 1
    then write_opaque_v b cred.identity
    else if cred.credential_type == 2
    then write_vector_v b cred.certificates Certificate.marshal
    else err unsupported_credential

decode_body : ℕ → Cursor → Result (Credential × Cursor)
decode_body t c =
    if t == 1
    then (do (a, c) ← read_opaque_v c; ok (of_basic t a, c))
    else if t == 2
    then (do (a, c) ← read_vector_v c Certificate.decode_certificate; ok (of_x509 t a, c))
    else err unsupported_credential

unfoldable pub marshal : Builder → Credential → Result Builder
unfolding marshal_body
marshal b cred = do let b = write_uint16 b cred.credential_type; marshal_body b cred

unfoldable pub decode_credential : Cursor → Result (Credential × Cursor)
unfolding decode_body
decode_credential c = do (t, c) ← read_uint16 c; decode_body t c

-- What the tag says of the other fields; no value with an unknown tag is written.
abbrev Fits : Credential → ℕ → Type 0
Fits cred k =
    if k == 1
    then ((a : Bytes) × All IsByte a × (cred ≡ of_basic 1 a))
    else if k == 2
    then ((a : List Certificate) × All Certificate.InRange a × (cred ≡ of_x509 2 a))
    else Unit

pub record InRange (cred : Credential) : Type 0 where
  pub tag_fits : cred.credential_type < 2 ^ 16
  pub body : Fits cred cred.credential_type

body-IsFormat :
    (t : ℕ)
    → IsFormat
        (λ cred. Fits cred cred.credential_type × (cred.credential_type ≡ t))
        marshal_body
        (decode_body t)
unfolding marshal_body decode_body
body-IsFormat t =
    branch (λ cred. cred.credential_type) t 1
      (case (λ cred. cred.credential_type) Fits 1 of_basic opaque-IsFormat (λ cred h. h)
        (λ a q. (a, q, refl)) (λ a. refl) (λ b a. refl) t)
      λ _.
        branch (λ cred. cred.credential_type) t 2
          (case (λ cred. cred.credential_type) Fits 2 of_x509
            (vector-IsStrict Certificate.certificate-IsStrict).format (λ cred h. h)
            (λ a q. (a, q, refl)) (λ a. refl) (λ b a. refl) t)
          λ _. refused unsupported_credential unsupported_credential (λ q. cc)

-- What `marshal` writes for a `Credential` in range is appended to the buffer, and is decoded to the same
-- value whatever follows it. Bytes that decode to a `Credential` are those that `marshal` writes for it,
-- at least one, and the value is in range. Decoding any bytes ends.
pub credential-IsStrict : IsStrict InRange marshal decode_credential
unfolding marshal decode_credential
credential-IsStrict =
    first_field (λ cred. cred.credential_type) uint16-IsStrict (λ cred h. h.tag_fits)
      λ t small.
        restrict (body-IsFormat t) (λ cred h. (h.0.body, h.1))
          (λ cred h.
            (record { tag_fits = subst (λ u. u < 2 ^ 16) (sym h.1) small; body = h.0 }, h.1))

abbrev pub marshal_mls : Credential → Result Bytes
marshal_mls cred = Message.marshal_mls marshal cred

abbrev pub unmarshal_mls : Bytes → Result Credential
unmarshal_mls wire = Message.unmarshal_mls decode_credential wire
