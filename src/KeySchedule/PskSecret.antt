-- ===== src/KeySchedule/PskSecret.antt =====
-- mls/keyschedule/psk.go, PSKSecret: the pre-shared keys of a commit folded into one secret.
use mls_go.Prelude.{ℕ, ◌+◌, ◌%◌, ◌^◌, List, [], ◌∷◌, length, replicate, Result, ok, ◌>>=◌}
use mls_go.Prelude.Text.{codes}
use mls_go.Syntax.Varint.{Bytes}
use mls_go.Syntax.Builder.{new_builder, write_uint16}
use mls_go.Cipher.{Suite, hash_len, extract, expand_with_label}
use mls_go.KeySchedule.PreSharedKeyId
use mls_go.KeySchedule.PreSharedKeyId.{PreSharedKeyId}

unfoldable pub psk_label : PreSharedKeyId → ℕ → ℕ → Result Bytes
psk_label id index count = do
  b ← PreSharedKeyId.marshal new_builder id
  ok (write_uint16 (write_uint16 b index) count)

pub record Psk : Type 0 where
  pub id : PreSharedKeyId
  pub psk : Bytes

-- The loop of PSKSecret from the index `i`.
unfoldable pub psk_loop : Suite → ℕ → ℕ → Bytes → List Psk → Result Bytes
psk_loop suite count i psk_secret [] = ok psk_secret
psk_loop suite count i psk_secret (p ∷ psks) = do
  extracted ← extract suite [] p.psk
  label ← psk_label p.id (i % 2 ^ 16) count
  input ← expand_with_label suite extracted (codes "derived psk") label (hash_len suite)
  psk_secret ← extract suite input psk_secret
  psk_loop suite count (i + 1) psk_secret psks

abbrev pub psk_secret : Suite → List Psk → Result Bytes
psk_secret suite psks = psk_loop suite (length psks % 2 ^ 16) 0 (replicate (hash_len suite) 0) psks
