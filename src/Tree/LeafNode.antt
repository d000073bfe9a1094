-- ===== src/Tree/LeafNode.antt =====
-- mls/tree/leaf.go, `LeafNode`: a member in the ratchet tree, and its wire form. The fields that depend
-- on the source stand in the record `LeafNodeSource`.
use mls_go.Prelude.{◌≡◌, >>=_assoc, refl, List, All, Result, ok, ◌>>=◌, arith}
use mls_go.Syntax.Varint.{IsByte, Bytes}
use mls_go.Syntax.Builder.{Builder, write_opaque_v}
use mls_go.Syntax.Cursor.{Cursor, read_opaque_v}
use mls_go.Syntax.Vector.{write_vector_v, read_vector_v}
use mls_go.Syntax.Format.{IsStrict, Encoder}
use mls_go.Syntax.Format.Opaque.{opaque-IsFormat, opaque-IsStrict}
use mls_go.Syntax.Format.Vector.{vector-IsStrict}
use mls_go.Syntax.Format.Struct.{first_field, field, done, same-IsStrict}
use mls_go.Syntax.Format.Message
use mls_go.Tree.Capabilities
use mls_go.Tree.Capabilities.{Capabilities}
use mls_go.Tree.Credential
use mls_go.Tree.Credential.{Credential}
use mls_go.Tree.Extension
use mls_go.Tree.Extension.{Extension}
use mls_go.Tree.LeafNodeSource
use mls_go.Tree.LeafNodeSource.{LeafNodeSource}

pub record LeafNode : Type 0 where
  pub encryption_key : Bytes
  pub signature_key : Bytes
  pub credential : Credential
  pub capabilities : Capabilities
  pub source : LeafNodeSource
  pub extensions : List Extension
  pub signature : Bytes

-- The part of the value that its signature covers.
unfoldable pub marshal_contents : Builder → LeafNode → Result Builder
marshal_contents b l = do
  b ← write_opaque_v b l.encryption_key
  b ← write_opaque_v b l.signature_key
  b ← Credential.marshal b l.credential
  b ← Capabilities.marshal b l.capabilities
  b ← LeafNodeSource.marshal b l.source
  b ← write_vector_v b l.extensions Extension.marshal
  ok b

unfoldable pub marshal : Builder → LeafNode → Result Builder
unfolding marshal_contents
marshal b l = do b ← marshal_contents b l; b ← write_opaque_v b l.signature; ok b

-- The same writes in one sequence.
abbrev marshal_flat : Encoder LeafNode
marshal_flat b l = do
  b ← write_opaque_v b l.encryption_key
  b ← write_opaque_v b l.signature_key
  b ← Credential.marshal b l.credential
  b ← Capabilities.marshal b l.capabilities
  b ← LeafNodeSource.marshal b l.source
  b ← write_vector_v b l.extensions Extension.marshal
  b ← write_opaque_v b l.signature
  ok b

unfoldable pub decode_leaf_node : Cursor → Result (LeafNode × Cursor)
decode_leaf_node c = do
  (encryption_key, c) ← read_opaque_v c
  (signature_key, c) ← read_opaque_v c
  (credential, c) ← Credential.decode_credential c
  (capabilities, c) ← Capabilities.decode_capabilities c
  (source, c) ← LeafNodeSource.decode_leaf_node_source c
  (extensions, c) ← read_vector_v c Extension.decode_extension
  (signature, c) ← read_opaque_v c
  ok (
    record {
      encryption_key = encryption_key;
      signature_key = signature_key;
      credential = credential;
      capabilities = capabilities;
      source = source;
      extensions = extensions;
      signature = signature;
    },
    c,
  )

-- The fields hold what their Go types can hold.
pub record InRange (l : LeafNode) : Type 0 where
  pub encryption_key : All IsByte l.encryption_key
  pub signature_key : All IsByte l.signature_key
  pub credential : Credential.InRange l.credential
  pub capabilities : Capabilities.InRange l.capabilities
  pub source : LeafNodeSource.InRange l.source
  pub extensions : All Extension.InRange l.extensions
  pub signature : All IsByte l.signature

flat-IsStrict : IsStrict InRange marshal_flat decode_leaf_node
unfolding decode_leaf_node
flat-IsStrict =
    first_field (λ l. l.encryption_key) opaque-IsStrict (λ l fits. fits.encryption_key)
      λ encryption_key h0.
        field (λ l. l.signature_key) opaque-IsFormat (λ l fits. fits.0.signature_key)
          λ signature_key h1.
            field (λ l. l.credential) Credential.credential-IsStrict.format
              (λ l fits. fits.0.0.credential)
              λ credential h2.
                field (λ l. l.capabilities) Capabilities.capabilities-IsStrict.format
                  (λ l fits. fits.0.0.0.capabilities)
                  λ capabilities h3.
                    field (λ l. l.source) LeafNodeSource.leaf_node_source-IsStrict.format
                      (λ l fits. fits.0.0.0.0.source)
                      λ source h4.
                        field (λ l. l.extensions)
                          (vector-IsStrict Extension.extension-IsStrict).format
                          (λ l fits. fits.0.0.0.0.0.extensions)
                          λ extensions h5.
                            field (λ l. l.signature) opaque-IsFormat
                              (λ l fits. fits.0.0.0.0.0.0.signature)
                              λ signature h6.
                                done
                                  (record {
                                    encryption_key = encryption_key;
                                    signature_key = signature_key;
                                    credential = credential;
                                    capabilities = capabilities;
                                    source = source;
                                    extensions = extensions;
                                    signature = signature;
                                  })
                                  (
                                    (
                                      (
                                        (
                                          (
                                            (
                                              (
                                                record {
                                                  encryption_key = h0;
                                                  signature_key = h1;
                                                  credential = h2;
                                                  capabilities = h3;
                                                  source = h4;
                                                  extensions = h5;
                                                  signature = h6;
                                                },
                                                refl,
                                              ),
                                              refl,
                                            ),
                                            refl,
                                          ),
                                          refl,
                                        ),
                                        refl,
                                      ),
                                      refl,
                                    ),
                                    refl,
                                  )
                                  (λ l fits. ground arith)

same_writes : (b : Builder) (l : LeafNode) → marshal b l ≡ marshal_flat b l
unfolding marshal
same_writes b l = simp (>>=_assoc)

-- What `marshal` writes for a `LeafNode` in range is appended to the buffer, and is decoded to the same
-- value whatever follows it. Bytes that decode to a `LeafNode` are those that `marshal` writes for it,
-- at least one, and the value is in range. Decoding any bytes ends.
pub leaf_node-IsStrict : IsStrict InRange marshal decode_leaf_node
leaf_node-IsStrict = same-IsStrict flat-IsStrict (λ b l fits. same_writes b l)

abbrev pub marshal_mls : LeafNode → Result Bytes
marshal_mls l = Message.marshal_mls marshal l

abbrev pub unmarshal_mls : Bytes → Result LeafNode
unmarshal_mls wire = Message.unmarshal_mls decode_leaf_node wire
