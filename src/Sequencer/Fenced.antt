-- ===== src/Sequencer/Fenced.antt =====
-- ironcore/sequencer/fencing.go, `FencedSequencer`: a sequencer for one VNI that leases the VNI and
-- writes through a shared register with the lease's token. The lease store and the register are
-- shared by all sequencers; `now` is the clock at the caller's test, `now'` at the store's.
pub mod Failover
use mls_go.Prelude.{ℕ, Bool, true, false, not, ◌||◌, Option, none, some, if◌then◌else◌, []}
use mls_go.Prelude.Dict.{bytes_equal}
use mls_go.Syntax.Varint.{Bytes}
use mls_go.Sequencer.Lease
use mls_go.Sequencer.Lease.{Lease, LeaseStore}
use mls_go.Sequencer.Register
use mls_go.Sequencer.Register.{FencedRegister, Answer, answer}

pub record Shared : Type 0 where
  pub store : LeaseStore
  pub register : FencedRegister

pub record FencedSequencer : Type 0 where
  pub owner : Bytes
  pub vni : ℕ
  pub group : Bytes
  pub ttl : ℕ
  pub lease : Lease
  pub held : Bool

-- The zero `Lease` is there until the first acquisition.
abbrev pub new_fenced_sequencer : Bytes → ℕ → Bytes → ℕ → FencedSequencer
new_fenced_sequencer owner vni g ttl = record {
  owner = owner;
  vni = vni;
  group = g;
  ttl = ttl;
  lease = record { vni = 0; owner = []; token = 0; expiry = 0 };
  held = false;
}

pub data Reply : Type 0 where
  wrong_group : Reply
  reply : Answer → Reply

unfoldable pub write_through :
    Shared → FencedSequencer → Bytes → ℕ → Bytes → Shared × FencedSequencer × Reply
write_through sh s g epoch commit =
    let (r, a) = Register.accept sh.register s.vni s.lease.token g epoch commit in
    (record sh { register = r }, s, reply a)

-- What follows the attempt to acquire the lease.
unfoldable pub with_lease :
    Shared → FencedSequencer → Option Lease → Bytes → ℕ → Bytes → Shared × FencedSequencer × Reply
unfolding write_through
with_lease sh s none g epoch commit = (sh, record s { held = false }, reply (answer false))
with_lease sh s (some l) g epoch commit =
    write_through sh (record s { lease = l; held = true }) g epoch commit

unfoldable pub acquire_then_write :
    Shared → FencedSequencer → ℕ → Bytes → ℕ → Bytes → Shared × FencedSequencer × Reply
unfolding with_lease
acquire_then_write sh s now' g epoch commit =
    let (store, l) = Lease.acquire sh.store now' s.vni s.owner s.ttl in
    with_lease (record sh { store = store }) s l g epoch commit

unfoldable pub accept_commit :
    Shared → FencedSequencer → ℕ → ℕ → Bytes → ℕ → Bytes → Shared × FencedSequencer × Reply
unfolding acquire_then_write
accept_commit sh s now now' g epoch commit =
    if not (bytes_equal g s.group)
    then (sh, s, wrong_group)
    else if not s.held || not (Lease.valid s.lease now)
    then acquire_then_write sh s now' g epoch commit
    else write_through sh s g epoch commit
