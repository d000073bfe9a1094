-- ===== src/Sequencer/Lease/Tokens.antt =====
-- Leases and fencing tokens over sequences of calls of the store.
use mls_go.Prelude.{
  ℕ, ◌+◌, ◌%◌, ◌^◌, ◌≤◌, ◌<◌, ◌≡◌, ◌≢◌, none, some, List, [], ◌∷◌, arith, ==_iff, length,
}
use mls_go.Prelude.Dict
use mls_go.Prelude.Dict.{bytes_equal_iff, bytes_equal, lookup-insert, lookup-delete, nat_eq}
use mls_go.Syntax.Varint.{Bytes}
use mls_go.Sequencer.Lease.{
  Lease, LeaseStore, next_token, acquire, renew, release, Call, acquires, renews, releases, step,
  run,
}

-- What a successful acquisition returns and stores: the next token, and only that.
pub acquire_granted :
    (s : LeaseStore) (now vni : ℕ) (owner : Bytes) (ttl : ℕ) (l : Lease)
    → (acquire s now vni owner ttl).1 ≡ some l
    → (l.token ≡ (next_token s vni + 1) % 2 ^ 64)
      × (l.owner ≡ owner)
      × (l.expiry ≡ now + ttl)
      × (next_token (acquire s now vni owner ttl).0 vni ≡ l.token)
      × (Dict.lookup vni (acquire s now vni owner ttl).0.held ≡ some l)
unfolding acquire
acquire_granted s now vni owner ttl l h = ground (
  arith,
  lookup-insert vni vni ((next_token s vni + 1) % 2 ^ 64) s.next,
  lookup-insert vni vni l s.held,
  ==_iff vni vni,
)

-- While one owner holds a valid lease, no other owner acquires the VNI, and nothing changes.
pub acquire_excluded :
    (s : LeaseStore) (now vni : ℕ) (owner : Bytes) (ttl : ℕ) (cur : Lease)
    → Dict.lookup vni s.held ≡ some cur
    → cur.owner ≢ owner
    → now < cur.expiry
    → acquire s now vni owner ttl ≡ (s, none)
unfolding acquire
acquire_excluded s now vni owner ttl cur h other live =
    ground (arith, h, bytes_equal_iff cur.owner owner)

next_token-acquire :
    (s : LeaseStore) (now vni : ℕ) (owner : Bytes) (ttl v : ℕ)
    → next_token s vni + 1 < 2 ^ 64
    → (next_token s v ≤ next_token (acquire s now vni owner ttl).0 v)
      × (next_token (acquire s now vni owner ttl).0 v ≤ next_token s v + 1)
unfolding acquire
next_token-acquire s now vni owner ttl v h =
    ground (arith, lookup-insert vni v ((next_token s vni + 1) % 2 ^ 64) s.next, ==_iff vni v)

next_token-renew :
    (s : LeaseStore) (now vni : ℕ) (owner : Bytes) (token ttl v : ℕ)
    → next_token (renew s now vni owner token ttl).0 v ≡ next_token s v
unfolding renew next_token
next_token-renew s now vni owner token ttl v = ground arith

next_token-release :
    (s : LeaseStore) (vni : ℕ) (owner : Bytes) (token v : ℕ)
    → next_token (release s vni owner token) v ≡ next_token s v
unfolding release next_token
next_token-release s vni owner token v = ground arith

next_token-step :
    (s : LeaseStore) (call : Call) (v : ℕ)
    → ((u : ℕ) → next_token s u + 1 < 2 ^ 64)
    → (next_token s v ≤ next_token (step s call) v)
      × (next_token (step s call) v ≤ next_token s v + 1)
unfolding step
next_token-step s (acquires now vni owner ttl) v h =
    next_token-acquire s now vni owner ttl v (h vni)
next_token-step s (renews now vni owner token ttl) v h =
    omega (arith, next_token-renew s now vni owner token ttl v)
next_token-step s (releases vni owner token) v h =
    omega (arith, next_token-release s vni owner token v)

-- The counter of every VNI only grows, by one a call at most, while 64 bits suffice for the calls.
pub next_token-run :
    (calls : List Call) (s : LeaseStore) (v : ℕ)
    → ((u : ℕ) → next_token s u + length calls < 2 ^ 64)
    → (next_token s v ≤ next_token (run s calls) v)
      × (next_token (run s calls) v ≤ next_token s v + length calls)
unfolding run
next_token-run [] s v h = omega arith
next_token-run (call ∷ calls) s v h =
    let one = λ (u : ℕ). next_token-step s call u (λ w. omega (arith, h w)) in
    omega (arith, one v, next_token-run calls (step s call) v (λ u. omega (arith, h u, one u)))

-- A later acquisition of a VNI, by whichever owner and after any acquisitions, renewals and
-- releases, gets a strictly greater fencing token, while the calls fit 64 bits.
pub acquire_fresh :
    (s : LeaseStore) (now now' vni : ℕ) (owner owner' : Bytes) (ttl ttl' : ℕ) (calls : List Call)
    (l l' : Lease)
    → ((u : ℕ) → next_token s u + length calls + 2 < 2 ^ 64)
    → (acquire s now vni owner ttl).1 ≡ some l
    → (acquire (run (acquire s now vni owner ttl).0 calls) now' vni owner' ttl').1 ≡ some l'
    → l.token < l'.token
acquire_fresh s now now' vni owner owner' ttl ttl' calls l l' h e e' =
    let after : LeaseStore = (acquire s now vni owner ttl).0 in
    let (t, _, _, n, _) = acquire_granted s now vni owner ttl l e in
    let (t', _, _, _, _) = acquire_granted (run after calls) now' vni owner' ttl' l' e' in
    let bound = λ (u : ℕ). next_token-acquire s now vni owner ttl u (omega (arith, h vni)) in
    let grown = next_token-run calls after vni (λ u. omega (arith, h u, bound u)) in
    omega (arith, t, n, t', grown, bound vni, h vni)
