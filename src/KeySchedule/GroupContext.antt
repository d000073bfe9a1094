-- ===== src/KeySchedule/GroupContext.antt =====
-- mls/keyschedule/context.go: the group state that is hashed into the key schedule, and its wire form.
use mls_go.Prelude.{ℕ, ◌^◌, ◌<◌, refl, List, All, Result, ok, ◌>>=◌, arith}
use mls_go.Syntax.Varint.{IsByte, Bytes}
use mls_go.Syntax.Builder.{Builder, write_opaque_v, write_uint16, write_uint64}
use mls_go.Syntax.Cursor.{Cursor, read_opaque_v, read_uint16, read_uint64}
use mls_go.Syntax.Vector.{write_vector_v, read_vector_v}
use mls_go.Syntax.Format.{IsStrict}
use mls_go.Syntax.Format.Opaque.{opaque-IsFormat}
use mls_go.Syntax.Format.Scalars.{uint16-IsFormat, uint64-IsFormat, uint16-IsStrict}
use mls_go.Syntax.Format.Vector.{vector-IsStrict}
use mls_go.Syntax.Format.Struct.{first_field, field, done}
use mls_go.Syntax.Format.Message
use mls_go.Tree.Extension
use mls_go.Tree.Extension.{Extension}

pub record GroupContext : Type 0 where
  pub version : ℕ
  pub cipher_suite : ℕ
  pub group_id : Bytes
  pub epoch : ℕ
  pub tree_hash : Bytes
  pub confirmed_transcript_hash : Bytes
  pub extensions : List Extension

unfoldable pub marshal : Builder → GroupContext → Result Builder
marshal b gc = do
  let b = write_uint16 b gc.version
  let b = write_uint16 b gc.cipher_suite
  b ← write_opaque_v b gc.group_id
  let b = write_uint64 b gc.epoch
  b ← write_opaque_v b gc.tree_hash
  b ← write_opaque_v b gc.confirmed_transcript_hash
  b ← write_vector_v b gc.extensions Extension.marshal
  ok b

unfoldable pub decode_group_context : Cursor → Result (GroupContext × Cursor)
decode_group_context c = do
  (version, c) ← read_uint16 c
  (cipher_suite, c) ← read_uint16 c
  (group_id, c) ← read_opaque_v c
  (epoch, c) ← read_uint64 c
  (tree_hash, c) ← read_opaque_v c
  (confirmed_transcript_hash, c) ← read_opaque_v c
  (extensions, c) ← read_vector_v c Extension.decode_extension
  ok (
    record {
      version = version;
      cipher_suite = cipher_suite;
      group_id = group_id;
      epoch = epoch;
      tree_hash = tree_hash;
      confirmed_transcript_hash = confirmed_transcript_hash;
      extensions = extensions;
    },
    c,
  )

-- The fields hold what their Go types can hold.
pub record InRange (gc : GroupContext) : Type 0 where
  pub version : gc.version < 2 ^ 16
  pub cipher_suite : gc.cipher_suite < 2 ^ 16
  pub group_id : All IsByte gc.group_id
  pub epoch : gc.epoch < 2 ^ 64
  pub tree_hash : All IsByte gc.tree_hash
  pub confirmed_transcript_hash : All IsByte gc.confirmed_transcript_hash
  pub extensions : All Extension.InRange gc.extensions

-- What `marshal` writes for a `GroupContext` in range is appended to the buffer, and is decoded to the same
-- value whatever follows it. Bytes that decode to a `GroupContext` are those that `marshal` writes for it,
-- at least one, and the value is in range. Decoding any bytes ends.
pub group_context-IsStrict : IsStrict InRange marshal decode_group_context
unfolding marshal decode_group_context
group_context-IsStrict =
    first_field (λ gc. gc.version) uint16-IsStrict (λ gc fits. fits.version)
      λ version h0.
        field (λ gc. gc.cipher_suite) uint16-IsFormat (λ gc fits. fits.0.cipher_suite)
          λ cipher_suite h1.
            field (λ gc. gc.group_id) opaque-IsFormat (λ gc fits. fits.0.0.group_id)
              λ group_id h2.
                field (λ gc. gc.epoch) uint64-IsFormat (λ gc fits. fits.0.0.0.epoch)
                  λ epoch h3.
                    field (λ gc. gc.tree_hash) opaque-IsFormat (λ gc fits. fits.0.0.0.0.tree_hash)
                      λ tree_hash h4.
                        field (λ gc. gc.confirmed_transcript_hash) opaque-IsFormat
                          (λ gc fits. fits.0.0.0.0.0.confirmed_transcript_hash)
                          λ confirmed_transcript_hash h5.
                            field (λ gc. gc.extensions)
                              (vector-IsStrict Extension.extension-IsStrict).format
                              (λ gc fits. fits.0.0.0.0.0.0.extensions)
                              λ extensions h6.
                                done
                                  (record {
                                    version = version;
                                    cipher_suite = cipher_suite;
                                    group_id = group_id;
                                    epoch = epoch;
                                    tree_hash = tree_hash;
                                    confirmed_transcript_hash = confirmed_transcript_hash;
                                    extensions = extensions;
                                  })
                                  (
                                    (
                                      (
                                        (
                                          (
                                            (
                                              (
                                                record {
                                                  version = h0;
                                                  cipher_suite = h1;
                                                  group_id = h2;
                                                  epoch = h3;
                                                  tree_hash = h4;
                                                  confirmed_transcript_hash = h5;
                                                  extensions = h6;
                                                },
                                                refl,
                                              ),
                                              refl,
                                            ),
                                            refl,
                                          ),
                                          refl,
                                        ),
                                        refl,
                                      ),
                                      refl,
                                    ),
                                    refl,
                                  )
                                  (λ gc fits. ground arith)

abbrev pub marshal_mls : GroupContext → Result Bytes
marshal_mls gc = Message.marshal_mls marshal gc

abbrev pub unmarshal_mls : Bytes → Result GroupContext
unmarshal_mls wire = Message.unmarshal_mls decode_group_context wire
