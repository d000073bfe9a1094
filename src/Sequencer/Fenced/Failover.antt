-- ===== src/Sequencer/Fenced/Failover.antt =====
-- Standby and takeover, over the shared store and register.
use mls_go.Prelude.{
  ℕ, ◌≤◌, ◌<◌, ◌≡◌, ◌≢◌, ◌+◌, ◌^◌, Bool, true, false, some, List, arith, ap, sym, ◌∙◌,
}
use mls_go.Prelude.Dict
use mls_go.Prelude.Dict.{bytes_equal, bytes_equal_iff, nat_eq}
use mls_go.Syntax.Varint.{Bytes}
use mls_go.Sequencer.Lease
use mls_go.Sequencer.Lease.{Lease, LeaseStore, next_token}
use mls_go.Sequencer.Lease.Tokens.{acquire_granted, acquire_excluded}
use mls_go.Sequencer.Register
use mls_go.Sequencer.Register.{FencedRegister, Answer, answer, fenced, Write, accept_write}
use mls_go.Sequencer.Register.Fencing.{stale_write_fenced}
use mls_go.Sequencer.Fenced.{
  Shared, FencedSequencer, reply, write_through, acquire_then_write, accept_commit,
}

-- The two ways to a write: with the lease at hand, and after acquiring it.
with_valid_lease :
    (sh : Shared) (s : FencedSequencer) (now now' epoch : ℕ) (commit : Bytes)
    → s.held ≡ true
    → now < s.lease.expiry
    → accept_commit sh s now now' s.group epoch commit ≡ write_through sh s s.group epoch commit
unfolding accept_commit
with_valid_lease sh s now now' epoch commit h live = ground (arith, bytes_equal_iff s.group s.group)

without_lease :
    (sh : Shared) (s : FencedSequencer) (now now' epoch : ℕ) (commit : Bytes)
    → s.held ≡ false
    → accept_commit sh s now now' s.group epoch commit
      ≡ acquire_then_write sh s now' s.group epoch commit
unfolding accept_commit
without_lease sh s now now' epoch commit h = ground (arith, bytes_equal_iff s.group s.group)

-- A sequencer that holds no lease is refused, and changes neither the store nor the register,
-- while another owner's lease is valid at the store.
pub standby_refused :
    (sh : Shared) (s : FencedSequencer) (now now' : ℕ) (epoch : ℕ) (commit : Bytes) (cur : Lease)
    → s.held ≡ false
    → Dict.lookup s.vni sh.store.held ≡ some cur
    → cur.owner ≢ s.owner
    → now' < cur.expiry
    → accept_commit sh s now now' s.group epoch commit ≡ (sh, s, reply (answer false))
unfolding acquire_then_write
standby_refused sh s now now' epoch commit cur h held other live =
    without_lease sh s now now' epoch commit h
    ∙ rw (acquire_excluded sh.store now' s.vni s.owner s.ttl cur held other live)
        (ap (λ t. (sh, record s { held = t }, reply (answer false))) (sym h))

-- After a write by `b` that was let through, a holder `a` of an older token is fenced.
fenced_after :
    (sh : Shared) (a b : FencedSequencer) (now_a now_a' epoch epoch' : ℕ) (g commit commit' : Bytes)
    (ans : Bool) (writes : List Write)
    → (write_through sh b g epoch commit).2 ≡ reply (answer ans)
    → a.held ≡ true
    → a.vni ≡ b.vni
    → now_a < a.lease.expiry
    → a.lease.token < b.lease.token
    → let after = (write_through sh b g epoch commit).0 in
      let later : Shared = record after { register = Register.run after.register writes } in
      accept_commit later a now_a now_a' a.group epoch' commit' ≡ (later, a, reply fenced)
unfolding write_through
fenced_after sh a b now_a now_a' epoch epoch' g commit commit' ans writes h ha same live old =
    let w : Write = record {
      vni = b.vni;
      token = b.lease.token;
      group = g;
      epoch = epoch;
      commit = commit;
    } in
    let stale : Write = record {
      vni = a.vni;
      token = a.lease.token;
      group = a.group;
      epoch = epoch';
      commit = commit';
    } in
    let after : Shared = record sh { register = (accept_write sh.register w).0 } in
    let later : Shared = record after { register = Register.run after.register writes } in
    with_valid_lease later a now_a now_a' epoch' commit' ha live
    ∙ rw (stale_write_fenced sh.register w ans writes stale (cc h) same old)

-- After another owner has acquired the VNI and written through the fenced register, a sequencer
-- that holds an earlier token and whose clock wrongly says that its lease is valid is fenced at
-- the register and changes nothing, after any further writes, while tokens do not wrap.
pub takeover_fences :
    (sh : Shared) (a b : FencedSequencer) (now_b now_b' now_a now_a' epoch epoch' : ℕ)
    (commit commit' : Bytes) (l : Lease) (ans : Bool) (writes : List Write)
    → b.held ≡ false
    → (Lease.acquire sh.store now_b' b.vni b.owner b.ttl).1 ≡ some l
    → (accept_commit sh b now_b now_b' b.group epoch commit).2 ≡ reply (answer ans)
    → a.held ≡ true
    → a.vni ≡ b.vni
    → now_a < a.lease.expiry
    → a.lease.token ≤ next_token sh.store b.vni
    → next_token sh.store b.vni + 1 < 2 ^ 64
    → let after = (accept_commit sh b now_b now_b' b.group epoch commit).0 in
      let later : Shared = record after { register = Register.run after.register writes } in
      accept_commit later a now_a now_a' a.group epoch' commit' ≡ (later, a, reply fenced)
takeover_fences sh a b now_b now_b' now_a now_a' epoch epoch' commit commit' l ans writes hb got
      let_through ha same live old room =
    let store : LeaseStore = (Lease.acquire sh.store now_b' b.vni b.owner b.ttl).0 in
    let (t, _, _, _, _) = acquire_granted sh.store now_b' b.vni b.owner b.ttl l got in
    let written =
      without_lease sh b now_b now_b' epoch commit hb ∙ acquired sh b now_b' epoch commit l got in
    rw written (
      fenced_after (record sh { store = store }) a (record b { lease = l; held = true }) now_a
        now_a' epoch epoch' b.group commit commit' ans writes (rw written at let_through) ha same
        live (omega (arith, t, old, room)))
  where
    acquired :
        (sh : Shared) (b : FencedSequencer) (now epoch : ℕ) (commit : Bytes) (l : Lease)
        → (Lease.acquire sh.store now b.vni b.owner b.ttl).1 ≡ some l
        → acquire_then_write sh b now b.group epoch commit
          ≡ write_through
              (record sh { store = (Lease.acquire sh.store now b.vni b.owner b.ttl).0 })
              (record b { lease = l; held = true })
              b.group
              epoch
              commit
    acquired sh b now epoch commit l got = unfold acquire_then_write in rw got
