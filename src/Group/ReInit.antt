-- ===== src/Group/ReInit.antt =====
-- mls/group/proposal.go, `ReInit`, and its wire form.
use mls_go.Prelude.{ℕ, ◌^◌, ◌<◌, refl, List, All, Result, ok, ◌>>=◌, arith}
use mls_go.Syntax.Varint.{IsByte, Bytes}
use mls_go.Syntax.Builder.{Builder, write_opaque_v, write_uint16}
use mls_go.Syntax.Cursor.{Cursor, read_opaque_v, read_uint16}
use mls_go.Syntax.Vector.{write_vector_v, read_vector_v}
use mls_go.Syntax.Format.{IsStrict}
use mls_go.Syntax.Format.Opaque.{opaque-IsStrict}
use mls_go.Syntax.Format.Scalars.{uint16-IsFormat}
use mls_go.Syntax.Format.Vector.{vector-IsStrict}
use mls_go.Syntax.Format.Struct.{first_field, field, done}
use mls_go.Tree.Extension
use mls_go.Tree.Extension.{Extension}

pub record ReInit : Type 0 where
  pub group_id : Bytes
  pub version : ℕ
  pub cipher_suite : ℕ
  pub extensions : List Extension

unfoldable pub marshal : Builder → ReInit → Result Builder
marshal b r = do
  b ← write_opaque_v b r.group_id
  let b = write_uint16 b r.version
  let b = write_uint16 b r.cipher_suite
  b ← write_vector_v b r.extensions Extension.marshal
  ok b

unfoldable pub decode_re_init : Cursor → Result (ReInit × Cursor)
decode_re_init c = do
  (group_id, c) ← read_opaque_v c
  (version, c) ← read_uint16 c
  (cipher_suite, c) ← read_uint16 c
  (extensions, c) ← read_vector_v c Extension.decode_extension
  ok (
    record {
      group_id = group_id;
      version = version;
      cipher_suite = cipher_suite;
      extensions = extensions;
    },
    c,
  )

-- The fields hold what their Go types can hold.
pub record InRange (r : ReInit) : Type 0 where
  pub group_id : All IsByte r.group_id
  pub version : r.version < 2 ^ 16
  pub cipher_suite : r.cipher_suite < 2 ^ 16
  pub extensions : All Extension.InRange r.extensions

-- What `marshal` writes for a `ReInit` in range is appended to the buffer, and is decoded to the same
-- value whatever follows it. Bytes that decode to a `ReInit` are those that `marshal` writes for it,
-- at least one, and the value is in range. Decoding any bytes ends.
pub re_init-IsStrict : IsStrict InRange marshal decode_re_init
unfolding marshal decode_re_init
re_init-IsStrict =
    first_field (λ r. r.group_id) opaque-IsStrict (λ r fits. fits.group_id)
      λ group_id h0.
        field (λ r. r.version) uint16-IsFormat (λ r fits. fits.0.version)
          λ version h1.
            field (λ r. r.cipher_suite) uint16-IsFormat (λ r fits. fits.0.0.cipher_suite)
              λ cipher_suite h2.
                field (λ r. r.extensions) (vector-IsStrict Extension.extension-IsStrict).format
                  (λ r fits. fits.0.0.0.extensions)
                  λ extensions h3.
                    done
                      (record {
                        group_id = group_id;
                        version = version;
                        cipher_suite = cipher_suite;
                        extensions = extensions;
                      })
                      (
                        (
                          (
                            (
                              record {
                                group_id = h0;
                                version = h1;
                                cipher_suite = h2;
                                extensions = h3;
                              },
                              refl,
                            ),
                            refl,
                          ),
                          refl,
                        ),
                        refl,
                      )
                      (λ r fits. ground arith)
