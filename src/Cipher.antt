-- ===== src/Cipher.antt =====
-- mls/cipher: the cipher suite, and the labels that separate its uses. What the source calls of Go's
-- standard library (the hash, HMAC, HKDF, Ed25519, ECDSA, AES-GCM and HPKE) is a field of `Suite`.
-- A panic is the error `panics`.
pub mod Labels
pub mod Sample
mod Tests
use mls_go.Prelude.{
  ℕ, ◌≤◌, ◌^◌, Bool, true, false, ◌&&◌, Option, none, some, [], ◌++◌, length, leb, ltb, ◌==◌,
  if◌then◌else◌, Result, ok, err, ◌>>=◌, invalid_length, unsupported_scheme, unsupported_aead,
  nonce_length, panics,
}
use mls_go.Prelude.Text.{codes}
use mls_go.Syntax.Varint.{Bytes, write_opaque_v}
use mls_go.Syntax.Builder.{be16, be32}
use Prim.Native.String.{String}

pub data SignatureScheme : Type 0 where
  ed25519 ecdsa_p256 : SignatureScheme

-- crypto/cipher.AEAD: Seal of a nonce, a plaintext and additional data, and Open.
pub record Aead : Type 0 where
  pub nonce_size : ℕ
  pub seal : Bytes → Bytes → Bytes → Bytes
  pub open_sealed : Bytes → Bytes → Bytes → Result Bytes

-- crypto.Signer: Sign of a message or digest, with the hash function that `opts` names, if any.
pub record Signer : Type 0 where
  pub sign : Bytes → Option ℕ → Result Bytes

-- crypto/hpke with the KDF and AEAD of the suite; keys are their serialized bytes, and the first
-- argument of `new_sender` is the randomness that it draws.
pub record Hpke : Type 0 where
  pub new_public_key : Bytes → Result Bytes
  pub new_private_key : Bytes → Result Bytes
  pub derive_key_pair : Bytes → Result (Bytes × Bytes)
  pub new_sender : Bytes → Bytes → Bytes → Result (Bytes × (Bytes → Result Bytes))
  pub new_recipient : Bytes → Bytes → Bytes → Result (Bytes → Result Bytes)

pub record Suite : Type 0 where
  pub id : ℕ
  -- NewHash().Size() and the sum of what is written to NewHash()
  pub digest_size : ℕ
  pub digest : Bytes → Bytes
  -- crypto/hmac and crypto/hkdf with NewHash
  pub hmac : Bytes → Bytes → Bytes
  pub hkdf_extract : Bytes → Bytes → Result Bytes
  pub hkdf_expand : Bytes → Bytes → ℕ → Result Bytes
  pub sig : SignatureScheme
  pub ed25519_verify : Bytes → Bytes → Bytes → Bool
  -- ecdsa.ParseUncompressedPublicKey, and VerifyASN1 with the key
  pub p256_parse : Bytes → Result (Bytes → Bytes → Bool)
  pub aead_id : ℕ
  -- aes.NewCipher and cipher.NewGCM
  pub aes_gcm : Bytes → Result Aead
  pub hpke : Hpke

abbrev pub hash_len : Suite → ℕ
hash_len s = s.digest_size

abbrev pub hash : Suite → Bytes → Bytes
hash s bytes = s.digest bytes

abbrev pub mac : Suite → Bytes → Bytes → Bytes
mac s key bytes = s.hmac key bytes

abbrev pub kdf_expand : Suite → Bytes → Bytes → ℕ → Result Bytes
kdf_expand s secret info length = s.hkdf_expand secret info length

abbrev pub extract : Suite → Bytes → Bytes → Result Bytes
extract s salt ikm = s.hkdf_extract ikm salt

-- crypto.SHA256
abbrev sha256 : ℕ
sha256 = 5

unfoldable pub verify_classical : Suite → Bytes → Bytes → Bytes → Bool
verify_classical s pub_key message sig = elim s.sig [
  | ed25519 ↦ (length pub_key == 32) && s.ed25519_verify pub_key message sig
  | ecdsa_p256 ↦ elim (s.p256_parse pub_key) [
    | err why ↦ false
    | ok verify ↦ verify (hash s message) sig
  ]
]

unfoldable pub sign_classical : Suite → Signer → Bytes → Result Bytes
sign_classical s priv message = elim s.sig [
  | ed25519 ↦ priv.sign message none
  | ecdsa_p256 ↦ priv.sign (hash s message) (some sha256)
]

unfoldable pub aead_key_size : Suite → Result ℕ
aead_key_size s = if s.aead_id == 1 then ok 16 else if s.aead_id == 2 then ok 32 else err panics

unfoldable pub aead_nonce_size : Suite → Result ℕ
aead_nonce_size s = if s.aead_id == 1 then ok 12 else if s.aead_id == 2 then ok 12 else err panics

unfoldable pub aead_cipher : Suite → Bytes → Result Aead
aead_cipher s key =
    if s.aead_id == 1
    then s.aes_gcm key
    else if s.aead_id == 2
    then s.aes_gcm key
    else err unsupported_aead

unfoldable pub seal : Suite → Bytes → Bytes → Bytes → Bytes → Result Bytes
seal s key nonce aad plaintext = do
  a ← aead_cipher s key
  if length nonce == a.nonce_size then ok (a.seal nonce plaintext aad) else err nonce_length

unfoldable pub open_sealed : Suite → Bytes → Bytes → Bytes → Bytes → Result Bytes
open_sealed s key nonce aad ciphertext = do
  a ← aead_cipher s key
  if length nonce == a.nonce_size then a.open_sealed nonce ciphertext aad else err nonce_length

abbrev pub mls_label_prefix : Bytes
mls_label_prefix = codes "MLS 1.0 "

unfoldable pub ref_hash : Suite → Bytes → Bytes → Result Bytes
ref_hash s label value = do
  lbl ← write_opaque_v label
  val ← write_opaque_v value
  ok (hash s (lbl ++ val))

-- The KDFLabel that ExpandWithLabel builds in `buf`.
unfoldable pub kdf_label : Bytes → Bytes → ℕ → Result Bytes
kdf_label label context length = do
  lbl ← write_opaque_v (mls_label_prefix ++ label)
  ctx ← write_opaque_v context
  ok ((be16 length ++ lbl) ++ ctx)

unfoldable pub expand_with_label : Suite → Bytes → Bytes → Bytes → ℕ → Result Bytes
unfolding kdf_label
expand_with_label s secret label context length =
    if ltb 65535 length
    then err invalid_length
    else do buf ← kdf_label label context length; kdf_expand s secret buf length

abbrev pub derive_secret : Suite → Bytes → Bytes → Result Bytes
derive_secret s secret label = expand_with_label s secret label [] (hash_len s)

abbrev pub derive_tree_secret : Suite → Bytes → Bytes → ℕ → ℕ → Result Bytes
derive_tree_secret s secret label generation length =
    expand_with_label s secret label (be32 generation) length

unfoldable pub labeled_context : Bytes → Bytes → Result Bytes
labeled_context label content = do
  lbl ← write_opaque_v (mls_label_prefix ++ label)
  body ← write_opaque_v content
  ok (lbl ++ body)

unfoldable pub sign_with_label : Suite → Signer → Bytes → Bytes → Result Bytes
unfolding sign_classical labeled_context
sign_with_label s priv label content = do
  tbs ← labeled_context label content
  sign_classical s priv tbs

unfoldable pub verify_with_label : Suite → Bytes → Bytes → Bytes → Bytes → Bool
unfolding verify_classical labeled_context
verify_with_label s pub_key label content sig = elim (labeled_context label content) [
  | err why ↦ false
  | ok tbs ↦ verify_classical s pub_key tbs sig
]

unfoldable pub encrypt_with_label :
    Suite → Bytes → Bytes → Bytes → Bytes → Bytes → Result (Bytes × Bytes)
encrypt_with_label s random pub_key label context plaintext = do
  pk ← s.hpke.new_public_key pub_key
  info ← labeled_context label context
  (enc, sender) ← s.hpke.new_sender random pk info
  ct ← sender plaintext
  ok (enc, ct)

unfoldable pub decrypt_with_label : Suite → Bytes → Bytes → Bytes → Bytes → Bytes → Result Bytes
decrypt_with_label s priv label context kem_output ciphertext = do
  sk ← s.hpke.new_private_key priv
  info ← labeled_context label context
  recipient ← s.hpke.new_recipient kem_output sk info
  recipient ciphertext

abbrev pub derive_key_pair : Suite → Bytes → Result (Bytes × Bytes)
derive_key_pair s ikm = s.hpke.derive_key_pair ikm
