-- ===== src/KeySchedule/SecretTree.antt =====
-- mls/keyschedule/secrettree.go: the ratchets of the leaves, derived down the tree.
use mls_go.Prelude.{
  ℕ, zero, suc, ◌+◌, ◌/◌, Option, none, some, [], length, take, ltb, ◌==◌, if◌then◌else◌, Result,
  ok, err, ◌>>=◌, out_of_fuel, no_ratchet, no_leaves,
}
use mls_go.Prelude.Dict
use mls_go.Prelude.Dict.{Dict, nat_eq}
use mls_go.Prelude.Text.{codes}
use mls_go.Syntax.Varint.{Bytes}
use mls_go.Cipher.{
  Suite, hash_len, expand_with_label, derive_tree_secret, aead_key_size, aead_nonce_size,
}
use mls_go.Tree.Math.{root, left, right}
use mls_go.KeySchedule.Schedule.{key_and_nonce}

unfoldable pub sender_data_key_nonce : Suite → Bytes → Bytes → Result (Bytes × Bytes)
sender_data_key_nonce suite sender_data_secret ciphertext =
    let sample =
      if ltb (hash_len suite) (length ciphertext)
      then take (hash_len suite) ciphertext
      else ciphertext in
    key_and_nonce suite sender_data_secret sample

-- The invalid ratchet types of the source are not values of this one.
pub data RatchetType : Type 0 where
  handshake_ratchet application_ratchet : RatchetType

pub record SecretTree : Type 0 where
  pub suite : Suite
  pub n_leaves : ℕ
  pub handshake_base : Dict ℕ Bytes
  pub application_base : Dict ℕ Bytes

-- A method returns the new maps. A node's children are at lower levels, of which there are 32 at
-- most.
unfoldable pub derive_node : ℕ → SecretTree → ℕ → Bytes → Result SecretTree
derive_node zero st node secret = err out_of_fuel
derive_node (suc fuel) st node secret = elim (left node) [
  | none ↦ (do
    hs ← expand_with_label st.suite secret (codes "handshake") [] (hash_len st.suite)
    app ← expand_with_label st.suite secret (codes "application") [] (hash_len st.suite)
    ok (record st {
      handshake_base = Dict.insert (node / 2) hs st.handshake_base;
      application_base = Dict.insert (node / 2) app st.application_base;
    }))
  | some l ↦ (do
    ls ← expand_with_label st.suite secret (codes "tree") (codes "left") (hash_len st.suite)
    rs ← expand_with_label st.suite secret (codes "tree") (codes "right") (hash_len st.suite)
    st ← derive_node fuel st l ls
    elim (right node st.n_leaves) [
      | none ↦ derive_node fuel st 0 rs
      | some r ↦ derive_node fuel st r rs
    ])
]

unfoldable pub new_secret_tree : Suite → ℕ → Bytes → Result SecretTree
unfolding derive_node
new_secret_tree suite n_leaves encryption_secret =
    if n_leaves == 0
    then err no_leaves
    else derive_node 32
        (record { suite = suite; n_leaves = n_leaves; handshake_base = []; application_base = [] })
        (root n_leaves) encryption_secret

-- `for j := uint32(0); j < generation; j++`, with the rounds that are left.
unfoldable pub advance : Suite → ℕ → ℕ → Bytes → Result Bytes
advance suite zero j secret = ok secret
advance suite (suc rounds) j secret = do
  secret ← derive_tree_secret suite secret (codes "secret") j (hash_len suite)
  advance suite rounds (j + 1) secret

abbrev pub base_of : SecretTree → ℕ → RatchetType → Option Bytes
base_of st leaf handshake_ratchet = Dict.lookup leaf st.handshake_base
base_of st leaf application_ratchet = Dict.lookup leaf st.application_base

unfoldable pub key_nonce : SecretTree → ℕ → RatchetType → ℕ → Result (Bytes × Bytes)
unfolding advance
key_nonce st leaf rt generation = elim (base_of st leaf rt) [
  | none ↦ err no_ratchet
  | some base ↦ (do
    secret ← advance st.suite generation 0 base
    nk ← aead_key_size st.suite
    key ← derive_tree_secret st.suite secret (codes "key") generation nk
    nn ← aead_nonce_size st.suite
    nonce ← derive_tree_secret st.suite secret (codes "nonce") generation nn
    ok (key, nonce))
]
