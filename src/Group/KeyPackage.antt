-- ===== src/Group/KeyPackage.antt =====
-- mls/group/keypackage.go: what a client advertises to be added to a group, and its wire form.
use mls_go.Prelude.{ℕ, ◌^◌, ◌<◌, refl, List, All, Result, ok, ◌>>=◌, arith}
use mls_go.Syntax.Varint.{IsByte, Bytes}
use mls_go.Syntax.Builder.{Builder, write_marshalled, write_opaque_v, write_uint16}
use mls_go.Syntax.Cursor.{Cursor, read_opaque_v, read_uint16}
use mls_go.Syntax.Vector.{write_vector_v, read_vector_v}
use mls_go.Syntax.Format.{IsStrict, Encoder}
use mls_go.Syntax.Format.Opaque.{opaque-IsFormat}
use mls_go.Syntax.Format.Scalars.{uint16-IsFormat, uint16-IsStrict}
use mls_go.Syntax.Format.Vector.{vector-IsStrict}
use mls_go.Syntax.Format.Struct.{first_field, field, done, same-IsStrict}
use mls_go.Syntax.Format.Union.{inline}
use mls_go.Syntax.Format.Message
use mls_go.Tree.Extension
use mls_go.Tree.Extension.{Extension}
use mls_go.Tree.LeafNode
use mls_go.Tree.LeafNode.{LeafNode}

pub record KeyPackage : Type 0 where
  pub version : ℕ
  pub cipher_suite : ℕ
  pub init_key : Bytes
  pub leaf_node : LeafNode
  pub extensions : List Extension
  pub signature : Bytes

-- The part of the value that its signature covers.
unfoldable pub marshal_tbs : Builder → KeyPackage → Result Builder
marshal_tbs b kp = do
  let b = write_uint16 b kp.version
  let b = write_uint16 b kp.cipher_suite
  b ← write_opaque_v b kp.init_key
  b ← write_marshalled b (LeafNode.marshal_mls kp.leaf_node)
  b ← write_vector_v b kp.extensions Extension.marshal
  ok b

unfoldable pub marshal : Builder → KeyPackage → Result Builder
unfolding marshal_tbs
marshal b kp = do b ← marshal_tbs b kp; b ← write_opaque_v b kp.signature; ok b

-- The same writes in one sequence.
abbrev marshal_flat : Encoder KeyPackage
marshal_flat b kp = do
  let b = write_uint16 b kp.version
  let b = write_uint16 b kp.cipher_suite
  b ← write_opaque_v b kp.init_key
  b ← write_marshalled b (LeafNode.marshal_mls kp.leaf_node)
  b ← write_vector_v b kp.extensions Extension.marshal
  b ← write_opaque_v b kp.signature
  ok b

unfoldable pub decode_key_package : Cursor → Result (KeyPackage × Cursor)
decode_key_package c = do
  (version, c) ← read_uint16 c
  (cipher_suite, c) ← read_uint16 c
  (init_key, c) ← read_opaque_v c
  (leaf_node, c) ← LeafNode.decode_leaf_node c
  (extensions, c) ← read_vector_v c Extension.decode_extension
  (signature, c) ← read_opaque_v c
  ok (
    record {
      version = version;
      cipher_suite = cipher_suite;
      init_key = init_key;
      leaf_node = leaf_node;
      extensions = extensions;
      signature = signature;
    },
    c,
  )

-- The fields hold what their Go types can hold.
pub record InRange (kp : KeyPackage) : Type 0 where
  pub version : kp.version < 2 ^ 16
  pub cipher_suite : kp.cipher_suite < 2 ^ 16
  pub init_key : All IsByte kp.init_key
  pub leaf_node : LeafNode.InRange kp.leaf_node
  pub extensions : All Extension.InRange kp.extensions
  pub signature : All IsByte kp.signature

flat-IsStrict : IsStrict InRange marshal_flat decode_key_package
unfolding decode_key_package
flat-IsStrict =
    first_field (λ kp. kp.version) uint16-IsStrict (λ kp fits. fits.version)
      λ version h0.
        field (λ kp. kp.cipher_suite) uint16-IsFormat (λ kp fits. fits.0.cipher_suite)
          λ cipher_suite h1.
            field (λ kp. kp.init_key) opaque-IsFormat (λ kp fits. fits.0.0.init_key)
              λ init_key h2.
                field (λ kp. kp.leaf_node) (inline LeafNode.leaf_node-IsStrict.format)
                  (λ kp fits. fits.0.0.0.leaf_node)
                  λ leaf_node h3.
                    field (λ kp. kp.extensions)
                      (vector-IsStrict Extension.extension-IsStrict).format
                      (λ kp fits. fits.0.0.0.0.extensions)
                      λ extensions h4.
                        field (λ kp. kp.signature) opaque-IsFormat
                          (λ kp fits. fits.0.0.0.0.0.signature)
                          λ signature h5.
                            done
                              (record {
                                version = version;
                                cipher_suite = cipher_suite;
                                init_key = init_key;
                                leaf_node = leaf_node;
                                extensions = extensions;
                                signature = signature;
                              })
                              (
                                (
                                  (
                                    (
                                      (
                                        (
                                          record {
                                            version = h0;
                                            cipher_suite = h1;
                                            init_key = h2;
                                            leaf_node = h3;
                                            extensions = h4;
                                            signature = h5;
                                          },
                                          refl,
                                        ),
                                        refl,
                                      ),
                                      refl,
                                    ),
                                    refl,
                                  ),
                                  refl,
                                ),
                                refl,
                              )
                              (λ kp fits. ground arith)

-- What `marshal` writes for a `KeyPackage` in range is appended to the buffer, and is decoded to the same
-- value whatever follows it. Bytes that decode to a `KeyPackage` are those that `marshal` writes for it,
-- at least one, and the value is in range. Decoding any bytes ends.
pub key_package-IsStrict : IsStrict InRange marshal decode_key_package
unfolding marshal
key_package-IsStrict = same-IsStrict flat-IsStrict (λ b kp fits. ground arith)

abbrev pub marshal_mls : KeyPackage → Result Bytes
marshal_mls kp = Message.marshal_mls marshal kp

abbrev pub unmarshal_mls : Bytes → Result KeyPackage
unmarshal_mls wire = Message.unmarshal_mls decode_key_package wire
