-- ===== src/Sequencer/Tests.antt =====
-- Runs of the sequencers at concrete groups, epochs, times and commits.
use mls_go.Prelude.{ℕ, ◌<◌, ◌≡◌, ◌≢◌, inl, inr, refl, true, false, none, some, List, [], ◌∷◌, arith}
use mls_go.Prelude.Dict
use mls_go.Prelude.Dict.{bytes_equal, bytes_eq, nat_eq}
use mls_go.Syntax.Varint.{Bytes}
use mls_go.Syntax.Builder.{be64}
use mls_go.Sequencer.Key.{seq_key}
use mls_go.Sequencer.Memory
use mls_go.Sequencer.Memory.{MemorySequencer, new_memory_sequencer}
use mls_go.Sequencer.Memory.Agreement.{accept_commit_agreement}
use mls_go.Sequencer.Memory.Refinement.{Refines, spec_accept, accept_commit-Refines}
use mls_go.Sequencer.Lease
use mls_go.Sequencer.Lease.{Lease, LeaseStore, new_lease_store}
use mls_go.Sequencer.Lease.Tokens.{acquire_fresh}
use mls_go.Sequencer.Lease.Exclusion.{lease_excludes}
use mls_go.Sequencer.Register
use mls_go.Sequencer.Register.{FencedRegister, new_fenced_register, Write}
use mls_go.Sequencer.Register.Fencing.{stale_write_fenced, accepted_writes_agree}
use mls_go.Sequencer.Fenced
use mls_go.Sequencer.Fenced.{Shared, FencedSequencer, new_fenced_sequencer}
use mls_go.Sequencer.Fenced.Failover.{standby_refused, takeover_fences}

abbrev group : Bytes
group = 7 ∷ 8 ∷ []

abbrev first : Bytes
first = 1 ∷ []

abbrev second : Bytes
second = 2 ∷ []

abbrev third : ℕ
third = 3

abbrev other_epoch : List Memory.Call
other_epoch = record { group = group; epoch = 4; commit = second } ∷ []

accept_commit_agreement_example :
    Memory.accept_commit
      (Memory.run (Memory.accept_commit new_memory_sequencer group third first).0 other_epoch)
      group
      third
      second
    ≡ (
      Memory.run (Memory.accept_commit new_memory_sequencer group third first).0 other_epoch,
      bytes_equal first second,
    )
unfolding Memory.accept_commit Dict.lookup
accept_commit_agreement_example =
    accept_commit_agreement new_memory_sequencer group third first other_epoch second refl

abbrev decided_first : MemorySequencer
decided_first = record { decided = (seq_key group third, first) ∷ [] }

accept_commit-Refines_example :
    ((Memory.accept_commit new_memory_sequencer group third first).1
      ≡ (spec_accept (λ g e. none) group third first).1)
    × Refines
        (Memory.accept_commit new_memory_sequencer group third first).0
        (spec_accept (λ g e. none) group third first).0
unfolding Memory.decided Dict.lookup
accept_commit-Refines_example =
    accept_commit-Refines new_memory_sequencer (λ g e. none) group third first (omega arith)
      (λ g e h. refl)

-- Two nodes, the lease that the first of them holds until 10, and the store that says so.
abbrev node_a : Bytes
node_a = 1 ∷ []

abbrev node_b : Bytes
node_b = 2 ∷ []

abbrev lease_a : Lease
lease_a = record { vni = 42; owner = node_a; token = 1; expiry = 10 }

abbrev store_a : LeaseStore
store_a = record { held = (42, lease_a) ∷ []; next = (42, 1) ∷ [] }

abbrev lease_b : Lease
lease_b = record { vni = 42; owner = node_b; token = 2; expiry = 30 }

other_owner : node_a ≢ node_b
other_owner same = cc same

other_owner' : node_b ≢ node_a
other_owner' same = cc same

-- The other node tries to acquire, to renew and to release the lease of the first.
abbrev attempts : List Lease.Call
attempts =
    Lease.acquires 5 42 node_b 10
    ∷ Lease.renews 6 42 node_b 1 10
    ∷ Lease.releases 42 node_b 1
    ∷ Lease.releases 43 node_a 1
    ∷ []

abbrev granted_a : LeaseStore
granted_a = (Lease.acquire new_lease_store 0 42 node_a 10).0

lease_excludes_example :
    (Dict.lookup 42 (Lease.run granted_a attempts).held ≡ some lease_a)
    × (Lease.acquire (Lease.run granted_a attempts) 9 42 node_b 10
        ≡ (Lease.run granted_a attempts, none))
unfolding Lease.acquire Dict.lookup
lease_excludes_example =
    lease_excludes new_lease_store 0 9 42 node_a node_b 10 10 attempts lease_a refl
      (
        inr (other_owner', omega arith),
        (inr other_owner', (inr other_owner', (inl (omega arith), tt))),
      )
      other_owner (omega arith)

acquire_fresh_example : lease_a.token < lease_b.token
unfolding Lease.acquire Lease.run Dict.lookup Dict.insert
acquire_fresh_example =
    acquire_fresh new_lease_store 0 20 42 node_a node_b 10 10 [] lease_a lease_b (λ u. omega arith)
      refl refl

-- The register after a write with token 2, and the two nodes' writes.
abbrev write_b : Write
write_b = record { vni = 42; token = 2; group = group; epoch = 3; commit = second }

abbrev write_a : Write
write_a = record { vni = 42; token = 1; group = group; epoch = 3; commit = first }

abbrev again_b : Write
again_b = record { vni = 42; token = 3; group = group; epoch = 3; commit = second }

stale_write_fenced_example :
    Register.accept_write
      (Register.run (Register.accept_write new_fenced_register write_b).0 (again_b ∷ []))
      write_a
    ≡ (
      Register.run (Register.accept_write new_fenced_register write_b).0 (again_b ∷ []),
      Register.fenced,
    )
unfolding Register.accept Dict.lookup Dict.insert
stale_write_fenced_example =
    stale_write_fenced new_fenced_register write_b true (again_b ∷ []) write_a refl refl
      (omega arith)

accepted_writes_agree_example : again_b.commit ≡ write_b.commit
unfolding Register.accept Register.run seq_key be64 Dict.lookup Dict.insert
accepted_writes_agree_example =
    accepted_writes_agree new_fenced_register write_b [] again_b refl refl refl refl

abbrev shared_a : Shared
shared_a = record { store = store_a; register = new_fenced_register }

abbrev standby_b : FencedSequencer
standby_b = new_fenced_sequencer node_b 42 group 10

abbrev holder_a : FencedSequencer
holder_a = record {
  owner = node_a;
  vni = 42;
  group = group;
  ttl = 10;
  lease = lease_a;
  held = true;
}

standby_refused_example :
    Fenced.accept_commit shared_a standby_b 5 5 group 3 second
    ≡ (shared_a, standby_b, Fenced.reply (Register.answer false))
unfolding Dict.lookup
standby_refused_example =
    standby_refused shared_a standby_b 5 5 3 second lease_a refl refl other_owner (omega arith)

abbrev after_b : Shared
after_b = (Fenced.accept_commit shared_a standby_b 20 20 group 3 second).0

takeover_fences_example :
    Fenced.accept_commit after_b holder_a 5 5 group 4 first
    ≡ (after_b, holder_a, Fenced.reply Register.fenced)
unfolding Fenced.accept_commit Lease.acquire Register.accept Register.run seq_key be64 Dict.lookup
    Dict.insert
takeover_fences_example =
    takeover_fences shared_a holder_a standby_b 20 20 5 5 3 4 second first lease_b true [] refl refl
      refl refl refl (omega arith) (omega arith) (omega arith)
