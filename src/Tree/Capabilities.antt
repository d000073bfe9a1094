-- ===== src/Tree/Capabilities.antt =====
-- mls/tree/leaf.go, `Capabilities`: what a client supports, and its wire form.
use mls_go.Prelude.{ℕ, ◌^◌, ◌<◌, refl, List, All, Result, ok, ◌>>=◌, arith}
use mls_go.Syntax.Builder.{Builder, write_uint16}
use mls_go.Syntax.Cursor.{Cursor, read_uint16}
use mls_go.Syntax.Vector.{write_vector_v, read_vector_v}
use mls_go.Syntax.Format.{IsStrict}
use mls_go.Syntax.Format.Scalars.{uint16-IsStrict}
use mls_go.Syntax.Format.Vector.{vector-IsStrict}
use mls_go.Syntax.Format.Struct.{first_field, field, done}

pub record Capabilities : Type 0 where
  pub versions : List ℕ
  pub cipher_suites : List ℕ
  pub extensions : List ℕ
  pub proposals : List ℕ
  pub credentials : List ℕ

unfoldable pub marshal : Builder → Capabilities → Result Builder
marshal b caps = do
  b ← write_vector_v b caps.versions (λ b v. ok (write_uint16 b v))
  b ← write_vector_v b caps.cipher_suites (λ b v. ok (write_uint16 b v))
  b ← write_vector_v b caps.extensions (λ b v. ok (write_uint16 b v))
  b ← write_vector_v b caps.proposals (λ b v. ok (write_uint16 b v))
  b ← write_vector_v b caps.credentials (λ b v. ok (write_uint16 b v))
  ok b

unfoldable pub decode_capabilities : Cursor → Result (Capabilities × Cursor)
decode_capabilities c = do
  (versions, c) ← read_vector_v c read_uint16
  (cipher_suites, c) ← read_vector_v c read_uint16
  (extensions, c) ← read_vector_v c read_uint16
  (proposals, c) ← read_vector_v c read_uint16
  (credentials, c) ← read_vector_v c read_uint16
  ok (
    record {
      versions = versions;
      cipher_suites = cipher_suites;
      extensions = extensions;
      proposals = proposals;
      credentials = credentials;
    },
    c,
  )

-- The fields hold what their Go types can hold.
pub record InRange (caps : Capabilities) : Type 0 where
  pub versions : All (λ v. v < 2 ^ 16) caps.versions
  pub cipher_suites : All (λ v. v < 2 ^ 16) caps.cipher_suites
  pub extensions : All (λ v. v < 2 ^ 16) caps.extensions
  pub proposals : All (λ v. v < 2 ^ 16) caps.proposals
  pub credentials : All (λ v. v < 2 ^ 16) caps.credentials

-- What `marshal` writes for a `Capabilities` in range is appended to the buffer, and is decoded to the same
-- value whatever follows it. Bytes that decode to a `Capabilities` are those that `marshal` writes for it,
-- at least one, and the value is in range. Decoding any bytes ends.
pub capabilities-IsStrict : IsStrict InRange marshal decode_capabilities
unfolding marshal decode_capabilities
capabilities-IsStrict =
    first_field (λ caps. caps.versions) (vector-IsStrict uint16-IsStrict)
      (λ caps fits. fits.versions)
      λ versions h0.
        field (λ caps. caps.cipher_suites) (vector-IsStrict uint16-IsStrict).format
          (λ caps fits. fits.0.cipher_suites)
          λ cipher_suites h1.
            field (λ caps. caps.extensions) (vector-IsStrict uint16-IsStrict).format
              (λ caps fits. fits.0.0.extensions)
              λ extensions h2.
                field (λ caps. caps.proposals) (vector-IsStrict uint16-IsStrict).format
                  (λ caps fits. fits.0.0.0.proposals)
                  λ proposals h3.
                    field (λ caps. caps.credentials) (vector-IsStrict uint16-IsStrict).format
                      (λ caps fits. fits.0.0.0.0.credentials)
                      λ credentials h4.
                        done
                          (record {
                            versions = versions;
                            cipher_suites = cipher_suites;
                            extensions = extensions;
                            proposals = proposals;
                            credentials = credentials;
                          })
                          (
                            (
                              (
                                (
                                  (
                                    record {
                                      versions = h0;
                                      cipher_suites = h1;
                                      extensions = h2;
                                      proposals = h3;
                                      credentials = h4;
                                    },
                                    refl,
                                  ),
                                  refl,
                                ),
                                refl,
                              ),
                              refl,
                            ),
                            refl,
                          )
                          (λ caps fits. ground arith)
