-- ===== src/KeySchedule/Schedule.antt =====
-- mls/keyschedule/schedule.go: the secrets of an epoch. A nil secret is `none`.
use mls_go.Prelude.{ℕ, Option, none, some, [], replicate, Result, ok, ◌>>=◌}
use mls_go.Prelude.Text.{codes}
use mls_go.Syntax.Varint.{Bytes}
use mls_go.Cipher.{
  Suite, hash_len, hash, extract, expand_with_label, derive_secret, aead_key_size, aead_nonce_size,
  derive_key_pair,
}

pub record EpochSecrets : Type 0 where
  pub joiner_secret : Bytes
  pub welcome_secret : Bytes
  pub epoch_secret : Bytes
  pub sender_data_secret : Bytes
  pub encryption_secret : Bytes
  pub exporter_secret : Bytes
  pub external_secret : Bytes
  pub confirmation_key : Bytes
  pub membership_key : Bytes
  pub resumption_psk : Bytes
  pub epoch_authenticator : Bytes
  pub init_secret : Bytes

-- A nil secret is the all-zero vector.
abbrev or_zero : Suite → Option Bytes → Bytes
or_zero suite none = replicate (hash_len suite) 0
or_zero suite (some s) = s

unfoldable pub joiner_secret : Suite → Bytes → Option Bytes → Bytes → Result Bytes
joiner_secret suite init_secret commit_secret group_context = do
  extracted ← extract suite init_secret (or_zero suite commit_secret)
  expand_with_label suite extracted (codes "joiner") group_context (hash_len suite)

-- ExpandWithLabel of "key" and "nonce" with the sizes of the AEAD, as the source writes it twice.
unfoldable pub key_and_nonce : Suite → Bytes → Bytes → Result (Bytes × Bytes)
key_and_nonce suite secret context = do
  nk ← aead_key_size suite
  key ← expand_with_label suite secret (codes "key") context nk
  nn ← aead_nonce_size suite
  nonce ← expand_with_label suite secret (codes "nonce") context nn
  ok (key, nonce)

abbrev pub welcome_key_nonce : Suite → Bytes → Result (Bytes × Bytes)
welcome_key_nonce suite welcome_secret = key_and_nonce suite welcome_secret []

unfoldable pub epoch_secrets_from_joiner :
    Suite → Bytes → Option Bytes → Bytes → Result EpochSecrets
epoch_secrets_from_joiner suite joiner psk_secret group_context = do
  member ← extract suite joiner (or_zero suite psk_secret)
  welcome ← derive_secret suite member (codes "welcome")
  epoch ← expand_with_label suite member (codes "epoch") group_context (hash_len suite)
  sender_data ← derive_secret suite epoch (codes "sender data")
  encryption ← derive_secret suite epoch (codes "encryption")
  exporter ← derive_secret suite epoch (codes "exporter")
  external ← derive_secret suite epoch (codes "external")
  confirm ← derive_secret suite epoch (codes "confirm")
  membership ← derive_secret suite epoch (codes "membership")
  resumption ← derive_secret suite epoch (codes "resumption")
  authentication ← derive_secret suite epoch (codes "authentication")
  init ← derive_secret suite epoch (codes "init")
  ok (record {
    joiner_secret = joiner;
    welcome_secret = welcome;
    epoch_secret = epoch;
    sender_data_secret = sender_data;
    encryption_secret = encryption;
    exporter_secret = exporter;
    external_secret = external;
    confirmation_key = confirm;
    membership_key = membership;
    resumption_psk = resumption;
    epoch_authenticator = authentication;
    init_secret = init;
  })

unfoldable pub derive_epoch_secrets :
    Suite → Bytes → Option Bytes → Option Bytes → Bytes → Result EpochSecrets
derive_epoch_secrets suite init_secret commit_secret psk_secret group_context = do
  joiner ← joiner_secret suite init_secret commit_secret group_context
  epoch_secrets_from_joiner suite joiner psk_secret group_context

abbrev pub external_pub : Suite → Bytes → Result (Bytes × Bytes)
external_pub suite external_secret = derive_key_pair suite external_secret

unfoldable pub mls_exporter : Suite → Bytes → Bytes → Bytes → ℕ → Result Bytes
mls_exporter suite exporter_secret label context length = do
  derived ← derive_secret suite exporter_secret label
  expand_with_label suite derived (codes "exported") (hash suite context) length
