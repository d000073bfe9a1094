-- ===== src/Ironcore/SecurityAssociation.antt =====
-- ironcore/sa.go: the ESP security associations of an epoch. The group that DeriveSAKeys reads is given
-- by its cipher suite, its epoch, its own leaf and its exporter.
pub mod Salts
pub mod Spis
pub mod Inbound
mod Tests
use mls_go.Prelude.{
  ℕ, ◌+◌, ◌*◌, ◌/◌, ◌%◌, ◌^◌, Bool, Option, none, some, List, [], ◌∷◌, ◌++◌, length, ◌==◌,
  if◌then◌else◌, Result, ok, err, ◌>>=◌, key_not_initialized, salt_not_initialized, spi_collision,
}
use Prim.Native.Nat.{bit_or}
use mls_go.Prelude.Xor.{xor_bytes}
use mls_go.Prelude.Dict
use mls_go.Prelude.Dict.{Dict, nat_eq}
use mls_go.Prelude.Text.{codes}
use mls_go.Syntax.Varint.{Bytes}
use mls_go.Syntax.Builder.{be32, be64}
use mls_go.Syntax.Cursor.{from_be}
use mls_go.Cipher.{Suite, expand_with_label}

abbrev sa_key_len : ℕ
sa_key_len = 32

abbrev pub sa_salt_len : ℕ
sa_salt_len = 4

pub record Sa : Type 0 where
  pub vni : ℕ
  pub epoch : ℕ
  pub spi : ℕ
  pub key : Bytes
  pub own_leaf : ℕ
  pub own_salt : Bytes
  pub own_spi : ℕ
  pub salt_mask : Bytes
  pub suite : Suite

unfoldable pub sa_context : ℕ → ℕ → Bytes
sa_context vni epoch = be32 vni ++ be64 epoch

unfoldable pub spi_context : ℕ → ℕ → ℕ → Bytes
spi_context vni epoch leaf = (be32 vni ++ be64 epoch) ++ be32 leaf

-- The epoch's low byte in place of the SPI's, and the top bit set.
unfoldable pub mark_spi : ℕ → ℕ → ℕ
mark_spi raw epoch = bit_or (bit_or (raw / 2 ^ 8 * 2 ^ 8) (epoch % 2 ^ 8)) (2 ^ 31)

unfoldable pub derive_spi : Suite → Bytes → ℕ → ℕ → Result ℕ
unfolding mark_spi
derive_spi suite k_group vni epoch = do
  raw ← expand_with_label suite k_group (codes "esp-spi") (sa_context vni epoch) 4
  ok (mark_spi (from_be 0 raw) epoch)

unfoldable pub derive_sender_spi : Suite → Bytes → ℕ → ℕ → ℕ → Result ℕ
unfolding mark_spi
derive_sender_spi suite k_group vni epoch leaf = do
  raw ← expand_with_label suite k_group (codes "esp-spi-sender") (spi_context vni epoch leaf) 4
  ok (mark_spi (from_be 0 raw) epoch)

unfoldable pub sender_spi : Sa → ℕ → Result ℕ
sender_spi sa leaf_index =
    if length sa.key == 0
    then err key_not_initialized
    else derive_sender_spi sa.suite sa.key sa.vni sa.epoch leaf_index

unfoldable pub sender_salt : Sa → ℕ → Result Bytes
unfolding xor_bytes
sender_salt sa leaf_index =
    if length sa.salt_mask == sa_salt_len
    then ok (xor_bytes sa.salt_mask (be32 leaf_index))
    else err salt_not_initialized

pub record InboundSa : Type 0 where
  pub leaf : ℕ
  pub spi : ℕ
  pub key : Bytes
  pub salt : Bytes

-- The loop of InboundSAs, with what it has seen and put out.
unfoldable pub inbound_loop : Sa → List ℕ → Dict ℕ ℕ → List InboundSa → Result (List InboundSa)
inbound_loop sa [] seen out = ok out
inbound_loop sa (leaf ∷ leaves) seen out = do
  spi ← sender_spi sa leaf
  elim (Dict.lookup spi seen) [
    | some other ↦ err spi_collision
    | none ↦ (do
      salt ← sender_salt sa leaf
      inbound_loop sa leaves (Dict.insert spi leaf seen)
          (out ++ record { leaf = leaf; spi = spi; key = sa.key; salt = salt } ∷ []))
  ]

unfoldable pub inbound_sas : Sa → List ℕ → Result (List InboundSa)
unfolding inbound_loop
inbound_sas sa leaves = inbound_loop sa leaves [] []

-- cipher.Lookup, and the methods Epoch, OwnLeaf and Exporter of the group
pub record GroupView : Type 0 where
  pub suite : Result Suite
  pub epoch : ℕ
  pub own_leaf : ℕ
  pub exporter : Bytes → Bytes → ℕ → Result Bytes

unfoldable pub derive_sa_keys : GroupView → ℕ → Result Sa
derive_sa_keys g vni = do
  suite ← g.suite
  k_group ← g.exporter (codes "ironcore-esp") (sa_context vni g.epoch) sa_key_len
  spi ← derive_spi suite k_group vni g.epoch
  salt_mask ← expand_with_label suite k_group (codes "esp-salt-mask") [] sa_salt_len
  let sa : Sa = record {
    vni = vni;
    epoch = g.epoch;
    spi = spi;
    key = k_group;
    own_leaf = g.own_leaf;
    own_salt = [];
    own_spi = 0;
    salt_mask = salt_mask;
    suite = suite;
  }
  own_salt ← sender_salt sa g.own_leaf
  own_spi ← sender_spi sa g.own_leaf
  ok (record sa { own_salt = own_salt; own_spi = own_spi })
