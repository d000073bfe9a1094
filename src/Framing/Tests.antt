-- ===== src/Framing/Tests.antt =====
-- A commit with no proposal and no path, framed by a member in either way.
use mls_go.Prelude.{
  ℕ, ◌^◌, ◌<◌, ◌≡◌, refl, sym, subst, ◌∙◌, append-nil, Option, none, some, [], ◌∷◌, ◌++◌, All,
  length, if◌then◌else◌, ◌==◌, Result, ok, arith,
}
use mls_go.Syntax.Varint.{Bytes, IsByte}
use mls_go.Cipher.Sample.{sample, signer, key, signer-key, signs_bytes, opens}
use mls_go.KeySchedule.GroupContext.{GroupContext}
use mls_go.KeySchedule.SecretTree.{SecretTree}
use mls_go.KeySchedule.Transcript.{split_authenticated_content}
use mls_go.Framing.Skim.{skim_commit}
use mls_go.Framing.Skim.Spans.{skim_commit-IsSkim}
use mls_go.Framing.Content
use mls_go.Framing.Content.{FramedContent, commit}
use mls_go.Framing.AuthenticatedContent
use mls_go.Framing.AuthenticatedContent.{AuthenticatedContent, framed_content_tbs}
use mls_go.Framing.AuthenticatedContent.Signed.{framed_content_tbs-injective}
use mls_go.Framing.PublicMessage.{PublicMessage}
use mls_go.Framing.PublicMessage.Protection.{
  protect_public, unprotect_public, unprotect_public-protect_public,
}
use mls_go.Framing.PrivateMessage.{PrivateMessage}
use mls_go.Framing.PrivateMessage.Protection.{protect_private, unprotect_private}
use mls_go.Framing.PrivateMessage.Opening.{unprotect_private-protect_private}
use mls_go.Framing.Generate.{sign_commit, split_authenticated_content-sign_commit}

abbrev empty_commit : Bytes
empty_commit = 0 ∷ 0 ∷ []

abbrev fc : FramedContent
fc = record {
  group_id = 1 ∷ [];
  epoch = 0;
  sender = record { type = 1; leaf_index = 0; index = 0 };
  authenticated_data = [];
  content_type = 3;
  content = empty_commit;
}

abbrev gc : Option GroupContext
gc = some (record {
  version = 1;
  cipher_suite = 1;
  group_id = 1 ∷ [];
  epoch = 0;
  tree_hash = [];
  confirmed_transcript_hash = [];
  extensions = [];
})

abbrev public : PublicMessage
public = record {
  content = fc;
  auth = record { signature = 9 ∷ []; confirmation_tag = 8 ∷ [] };
  membership_tag = 4 ∷ [];
}

abbrev st : SecretTree
st = record {
  suite = sample;
  n_leaves = 1;
  handshake_base = (0, 1 ∷ []) ∷ [];
  application_base = (0, 1 ∷ []) ∷ [];
}

-- The AEAD of the sample suite encrypts nothing.
abbrev private : PrivateMessage
private = record {
  group_id = 1 ∷ [];
  epoch = 0;
  content_type = 3;
  authenticated_data = [];
  encrypted_sender_data = 0 ∷ 0 ∷ 0 ∷ 0 ∷ 0 ∷ 0 ∷ 0 ∷ 0 ∷ 1 ∷ 2 ∷ 3 ∷ 4 ∷ [];
  ciphertext = 0 ∷ 0 ∷ 1 ∷ 9 ∷ 1 ∷ 8 ∷ 0 ∷ [];
}

abbrev input : Bytes
input =
    0 ∷ 1 ∷ 1 ∷ 1 ∷ 0 ∷ 0 ∷ 0 ∷ 0 ∷ 0 ∷ 0 ∷ 0 ∷ 0 ∷ 1 ∷ 0 ∷ 0 ∷ 0 ∷ 0 ∷ 0 ∷ 3 ∷ 0 ∷ 0 ∷ 1 ∷ 9 ∷ []

abbrev tbs : Bytes
tbs =
    0 ∷ 1 ∷ 0 ∷ 1 ∷ 1 ∷ 1 ∷ 0 ∷ 0 ∷ 0 ∷ 0 ∷ 0 ∷ 0 ∷ 0 ∷ 0 ∷ 1 ∷ 0 ∷ 0 ∷ 0 ∷ 0 ∷ 0 ∷ 3 ∷ 0 ∷ 0 ∷ 0
    ∷ 1 ∷ 0 ∷ 1 ∷ 1 ∷ 1 ∷ 0 ∷ 0 ∷ 0 ∷ 0 ∷ 0 ∷ 0 ∷ 0 ∷ 0 ∷ 0 ∷ 0 ∷ 0 ∷ []

-- What the four functions return for this commit.
runs :
    (protect_public sample signer gc (4 ∷ []) fc (8 ∷ []) ≡ ok public)
    × (protect_private sample signer gc st (6 ∷ []) fc 0 (1 ∷ 2 ∷ 3 ∷ 4 ∷ []) 1 (8 ∷ [])
        ≡ ok private)
    × (sign_commit sample signer gc fc 1 ≡ ok (input, 9 ∷ []))
    × (framed_content_tbs 1 fc gc ≡ ok tbs)
unfolding protect_public protect_private sign_commit framed_content_tbs AuthenticatedContent.sign
    AuthenticatedContent.signed_context Content.marshal Content.marshal_content
    mls_go.Cipher.aead_cipher mls_go.Cipher.aead_key_size mls_go.Cipher.aead_nonce_size
    mls_go.Cipher.expand_with_label mls_go.Cipher.kdf_label mls_go.Cipher.labeled_context
    mls_go.Cipher.seal mls_go.Cipher.sign_classical mls_go.Cipher.sign_with_label
    mls_go.Framing.AuthData.marshal mls_go.Framing.AuthData.write_tag
    mls_go.Framing.PrivateMessage.Content.private_message_content
    mls_go.Framing.PrivateMessage.Protection.apply_reuse_guard
    mls_go.Framing.PrivateMessage.Protection.private_content_aad
    mls_go.Framing.PrivateMessage.Protection.ratchet_type_for
    mls_go.Framing.PrivateMessage.Protection.seal_private
    mls_go.Framing.PrivateMessage.Protection.sender_data_aad
    mls_go.Framing.PrivateMessage.SenderData.marshal
    mls_go.Framing.PublicMessage.Protection.authenticated_content_tbm mls_go.Framing.Sender.marshal
    mls_go.KeySchedule.GroupContext.marshal mls_go.KeySchedule.Schedule.key_and_nonce
    mls_go.KeySchedule.SecretTree.advance mls_go.KeySchedule.SecretTree.key_nonce
    mls_go.KeySchedule.SecretTree.sender_data_key_nonce mls_go.Prelude.Dict.lookup
    mls_go.Prelude.Xor.xor_bytes mls_go.Syntax.Builder.be16 mls_go.Syntax.Builder.be32
    mls_go.Syntax.Builder.be64 mls_go.Syntax.Builder.write_opaque_v mls_go.Syntax.Builder.write_raw
    mls_go.Syntax.Builder.write_uint16 mls_go.Syntax.Builder.write_uint32
    mls_go.Syntax.Builder.write_uint64 mls_go.Syntax.Builder.write_uint8
    mls_go.Syntax.Builder.write_varint mls_go.Syntax.Cursor.read_opaque_v
    mls_go.Syntax.Varint.read_varint mls_go.Syntax.Varint.write_opaque_v
    mls_go.Syntax.Varint.write_varint mls_go.Syntax.Vector.write_items
    mls_go.Syntax.Vector.write_vector_v mls_go.Tree.Extension.marshal
runs = (refl, refl, refl, refl)

unprotect_public-protect_public_example :
    (unprotect_public sample key gc (4 ∷ []) public
      ≡ ok (record { wire_format = 1; content = fc; auth = public.auth }))
    × (public.content ≡ fc)
    × (public.auth.confirmation_tag ≡ 8 ∷ [])
unprotect_public-protect_public_example =
    unprotect_public-protect_public sample signer key gc (4 ∷ []) fc (8 ∷ []) public signer-key
      runs.0

skimmed : skim_commit empty_commit ≡ ok []
unfolding skim_commit mls_go.Syntax.Cursor.read_opaque_v mls_go.Syntax.Varint.read_varint
    mls_go.Syntax.Varint.write_varint mls_go.Syntax.Cursor.read_uint8
skimmed = refl

fits : Content.Fits 3 empty_commit
fits =
    let (s, whole, spans) = skim_commit-IsSkim.span empty_commit [] (omega arith) skimmed in
    (
      omega arith,
      subst (λ (t : Bytes). (after : Bytes) → skim_commit (t ++ after) ≡ ok after)
          (sym (whole ∙ append-nil s)) spans,
    )

unprotect_private-protect_private_example :
    (ac : AuthenticatedContent) × (unprotect_private sample (λ leaf. ok key) gc st (6 ∷ []) private
      ≡ ok ac)
    × (ac.content ≡ fc)
    × (ac.auth.confirmation_tag ≡ 8 ∷ [])
unprotect_private-protect_private_example =
    unprotect_private-protect_private sample signer key (λ leaf. ok key) gc st (6 ∷ []) fc 0
      (1 ∷ 2 ∷ 3 ∷ 4 ∷ []) 1 (8 ∷ []) private opens signer-key refl fits refl
      (record {
        leaf_index = omega arith;
        generation = omega arith;
        reuse_guard = (refl, omega arith);
      })
      signs_bytes (omega arith) runs.1

split_authenticated_content-sign_commit_example :
    (wire : Bytes) × (AuthenticatedContent.marshal_mls (record {
      wire_format = 1;
      content = fc;
      auth = record { signature = 9 ∷ []; confirmation_tag = 8 ∷ [] };
    })
      ≡ ok wire)
    × (split_authenticated_content sample wire ≡ ok (input, 8 ∷ []))
split_authenticated_content-sign_commit_example =
    split_authenticated_content-sign_commit sample signer gc fc 1 input (9 ∷ []) (8 ∷ []) refl refl
      (omega arith) runs.2

fc-InRange : Content.InRange fc
fc-InRange = record {
  group_id = omega arith;
  epoch = omega arith;
  sender = record { tag_fits = omega arith; body = (0, omega arith, refl) };
  authenticated_data = tt;
  content_type = omega arith;
  content = fits;
}

framed_content_tbs-injective_example : (◌≡◌ {A = ℕ} 1 1) × (fc ≡ fc)
framed_content_tbs-injective_example =
    framed_content_tbs-injective 1 1 fc fc gc gc tbs (omega arith) (omega arith) fc-InRange
      fc-InRange runs.3 runs.3
