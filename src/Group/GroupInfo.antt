-- ===== src/Group/GroupInfo.antt =====
-- mls/group/groupinfo.go: the public state of a group, and its wire form.
use mls_go.Prelude.{ℕ, ◌^◌, ◌<◌, refl, List, All, Result, ok, ◌>>=◌, arith}
use mls_go.Syntax.Varint.{IsByte, Bytes}
use mls_go.Syntax.Builder.{Builder, write_marshalled, write_opaque_v, write_uint32}
use mls_go.Syntax.Cursor.{Cursor, read_opaque_v, read_uint32}
use mls_go.Syntax.Vector.{write_vector_v, read_vector_v}
use mls_go.Syntax.Format.{IsStrict, Encoder}
use mls_go.Syntax.Format.Opaque.{opaque-IsFormat}
use mls_go.Syntax.Format.Scalars.{uint32-IsFormat}
use mls_go.Syntax.Format.Vector.{vector-IsStrict}
use mls_go.Syntax.Format.Struct.{first_field, field, done, same-IsStrict}
use mls_go.Syntax.Format.Union.{inline-IsStrict}
use mls_go.Syntax.Format.Message
use mls_go.KeySchedule.GroupContext
use mls_go.KeySchedule.GroupContext.{GroupContext}
use mls_go.Tree.Extension
use mls_go.Tree.Extension.{Extension}

pub record GroupInfo : Type 0 where
  pub group_context : GroupContext
  pub extensions : List Extension
  pub confirmation_tag : Bytes
  pub signer : ℕ
  pub signature : Bytes

-- The part of the value that its signature covers.
unfoldable pub marshal_tbs : Builder → GroupInfo → Result Builder
marshal_tbs b gi = do
  b ← write_marshalled b (GroupContext.marshal_mls gi.group_context)
  b ← write_vector_v b gi.extensions Extension.marshal
  b ← write_opaque_v b gi.confirmation_tag
  let b = write_uint32 b gi.signer
  ok b

unfoldable pub marshal : Builder → GroupInfo → Result Builder
unfolding marshal_tbs
marshal b gi = do b ← marshal_tbs b gi; b ← write_opaque_v b gi.signature; ok b

-- The same writes in one sequence.
abbrev marshal_flat : Encoder GroupInfo
marshal_flat b gi = do
  b ← write_marshalled b (GroupContext.marshal_mls gi.group_context)
  b ← write_vector_v b gi.extensions Extension.marshal
  b ← write_opaque_v b gi.confirmation_tag
  let b = write_uint32 b gi.signer
  b ← write_opaque_v b gi.signature
  ok b

unfoldable pub decode_group_info : Cursor → Result (GroupInfo × Cursor)
decode_group_info c = do
  (group_context, c) ← GroupContext.decode_group_context c
  (extensions, c) ← read_vector_v c Extension.decode_extension
  (confirmation_tag, c) ← read_opaque_v c
  (signer, c) ← read_uint32 c
  (signature, c) ← read_opaque_v c
  ok (
    record {
      group_context = group_context;
      extensions = extensions;
      confirmation_tag = confirmation_tag;
      signer = signer;
      signature = signature;
    },
    c,
  )

-- The fields hold what their Go types can hold.
pub record InRange (gi : GroupInfo) : Type 0 where
  pub group_context : GroupContext.InRange gi.group_context
  pub extensions : All Extension.InRange gi.extensions
  pub confirmation_tag : All IsByte gi.confirmation_tag
  pub signer : gi.signer < 2 ^ 32
  pub signature : All IsByte gi.signature

flat-IsStrict : IsStrict InRange marshal_flat decode_group_info
unfolding decode_group_info
flat-IsStrict =
    first_field (λ gi. gi.group_context) (inline-IsStrict GroupContext.group_context-IsStrict)
      (λ gi fits. fits.group_context)
      λ group_context h0.
        field (λ gi. gi.extensions) (vector-IsStrict Extension.extension-IsStrict).format
          (λ gi fits. fits.0.extensions)
          λ extensions h1.
            field (λ gi. gi.confirmation_tag) opaque-IsFormat (λ gi fits. fits.0.0.confirmation_tag)
              λ confirmation_tag h2.
                field (λ gi. gi.signer) uint32-IsFormat (λ gi fits. fits.0.0.0.signer)
                  λ signer h3.
                    field (λ gi. gi.signature) opaque-IsFormat (λ gi fits. fits.0.0.0.0.signature)
                      λ signature h4.
                        done
                          (record {
                            group_context = group_context;
                            extensions = extensions;
                            confirmation_tag = confirmation_tag;
                            signer = signer;
                            signature = signature;
                          })
                          (
                            (
                              (
                                (
                                  (
                                    record {
                                      group_context = h0;
                                      extensions = h1;
                                      confirmation_tag = h2;
                                      signer = h3;
                                      signature = h4;
                                    },
                                    refl,
                                  ),
                                  refl,
                                ),
                                refl,
                              ),
                              refl,
                            ),
                            refl,
                          )
                          (λ gi fits. ground arith)

-- What `marshal` writes for a `GroupInfo` in range is appended to the buffer, and is decoded to the same
-- value whatever follows it. Bytes that decode to a `GroupInfo` are those that `marshal` writes for it,
-- at least one, and the value is in range. Decoding any bytes ends.
pub group_info-IsStrict : IsStrict InRange marshal decode_group_info
unfolding marshal
group_info-IsStrict = same-IsStrict flat-IsStrict (λ b gi fits. ground arith)

abbrev pub marshal_mls : GroupInfo → Result Bytes
marshal_mls gi = Message.marshal_mls marshal gi

abbrev pub unmarshal_mls : Bytes → Result GroupInfo
unmarshal_mls wire = Message.unmarshal_mls decode_group_info wire
