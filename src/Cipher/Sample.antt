-- ===== src/Cipher/Sample.antt =====
-- A suite of constant functions, and its signer, for the tests.
use mls_go.Prelude.{◌≡◌, true, [], ◌∷◌, length, replicate, All, ok, err, arith, outside, ◌%◌}
use mls_go.Prelude.Dict.{bytes_equal}
use mls_go.Syntax.Varint.{Bytes, IsByte}
use mls_go.Cipher.{
  Suite, Signer, Aead, Hpke, ed25519, sign_classical, verify_classical, aead_cipher, seal,
  open_sealed,
}

abbrev aead : Aead
aead = record {
  nonce_size = 12;
  seal = λ nonce plaintext aad. plaintext;
  open_sealed = λ nonce ciphertext aad. ok ciphertext;
}

abbrev hpke : Hpke
hpke = record {
  new_public_key = λ k. ok k;
  new_private_key = λ k. ok k;
  derive_key_pair = λ ikm. ok (ikm, ikm);
  new_sender = λ random pk info. ok (random, λ pt. ok pt);
  new_recipient = λ enc sk info. ok (λ ct. ok ct);
}

abbrev pub sample : Suite
sample = record {
  id = 1;
  digest_size = 1;
  digest = λ b. (length b % 256) ∷ [];
  hmac = λ key b. key;
  hkdf_extract = λ secret salt. ok secret;
  hkdf_expand = λ secret info n. ok (replicate n 7);
  sig = ed25519;
  ed25519_verify = λ key message sig. bytes_equal sig (9 ∷ []);
  p256_parse = λ key. err outside;
  aead_id = 1;
  aes_gcm = λ key. ok aead;
  hpke = hpke;
}

abbrev pub signer : Signer
signer = record { sign = λ message opts. ok (9 ∷ []) }

abbrev pub key : Bytes
key = replicate 32 5

pub signer-key :
    (message sig : Bytes)
    → sign_classical sample signer message ≡ ok sig
    → verify_classical sample key message sig ≡ true
unfolding sign_classical verify_classical
signer-key message sig h = ground arith

pub signs_bytes :
    (sig message : Bytes) → sign_classical sample signer message ≡ ok sig → All IsByte sig
unfolding sign_classical
signs_bytes sig message h = ground arith

pub opens :
    (key' nonce aad plaintext ciphertext : Bytes)
    → seal sample key' nonce aad plaintext ≡ ok ciphertext
    → open_sealed sample key' nonce aad ciphertext ≡ ok plaintext
unfolding seal open_sealed aead_cipher
opens key' nonce aad plaintext ciphertext h = ground arith
