-- ===== src/Sequencer/Lease/Exclusion.antt =====
-- A valid lease excludes other owners, whatever calls they make.
use mls_go.Prelude.{
  ℕ, ◌+◌, ◌<◌, ◌≡◌, ◌≢◌, ◌⊎◌, ◌%◌, ◌^◌, sym, ap, subst, ◌∙◌, Option-cases, inl, inr, none, some,
  List, [], ◌∷◌, All, arith, ==_iff,
}
use mls_go.Prelude.Dict
use mls_go.Prelude.Dict.{bytes_equal, bytes_equal_iff, lookup-insert, lookup-delete, nat_eq}
use mls_go.Syntax.Varint.{Bytes}
use mls_go.Sequencer.Lease.{
  Lease, LeaseStore, next_token, acquire, renew, release, Call, acquires, renews, releases, step,
  run,
}
use mls_go.Sequencer.Lease.Tokens.{acquire_granted, acquire_excluded}
use native.Mathlib.Decide.{ℕ_discrete}

-- A call for another VNI, or by another owner, who tries to acquire before `until` only.
abbrev pub Apart : ℕ → Bytes → ℕ → Call → Type 0
Apart vni owner until (acquires now v o ttl) = (v ≢ vni) ⊎ ((o ≢ owner) × (now < until))
Apart vni owner until (renews now v o token ttl) = (v ≢ vni) ⊎ (o ≢ owner)
Apart vni owner until (releases v o token) = (v ≢ vni) ⊎ (o ≢ owner)

-- A call for another VNI leaves the lease of this one.
acquire_elsewhere :
    (s : LeaseStore) (vni now v : ℕ) (o : Bytes) (ttl : ℕ)
    → v ≢ vni
    → Dict.lookup vni (acquire s now v o ttl).0.held ≡ Dict.lookup vni s.held
unfolding acquire
acquire_elsewhere s vni now v o ttl other = ground (
  arith,
  lookup-insert v vni
      (record { vni = v; owner = o; token = (next_token s v + 1) % 2 ^ 64; expiry = now + ttl })
      s.held,
  ==_iff v vni,
)

renew_elsewhere :
    (s : LeaseStore) (vni now v : ℕ) (o : Bytes) (token ttl : ℕ)
    → v ≢ vni
    → Dict.lookup vni (renew s now v o token ttl).0.held ≡ Dict.lookup vni s.held
unfolding renew
renew_elsewhere s vni now v o token ttl other = elim (Option-cases (Dict.lookup v s.held)) [
  | inl free ↦ ground (arith, free)
  | inr (cur, is) ↦
      ground
        (arith, is, lookup-insert v vni (record cur { expiry = now + ttl }) s.held, ==_iff v vni)
]

release_elsewhere :
    (s : LeaseStore) (vni v : ℕ) (o : Bytes) (token : ℕ)
    → v ≢ vni
    → Dict.lookup vni (release s v o token).held ≡ Dict.lookup vni s.held
unfolding release
release_elsewhere s vni v o token other = elim (Option-cases (Dict.lookup v s.held)) [
  | inl free ↦ ground (arith, free)
  | inr (cur, is) ↦ ground (arith, is, lookup-delete v vni s.held, ==_iff v vni)
]

-- A renewal or a release by another owner changes nothing.
renew_by_other :
    (s : LeaseStore) (l : Lease) (now vni : ℕ) (o : Bytes) (token ttl : ℕ)
    → Dict.lookup vni s.held ≡ some l
    → o ≢ l.owner
    → (renew s now vni o token ttl).0 ≡ s
unfolding renew
renew_by_other s l now vni o token ttl h other = ground (arith, h, bytes_equal_iff l.owner o)

release_by_other :
    (s : LeaseStore) (l : Lease) (vni : ℕ) (o : Bytes) (token : ℕ)
    → Dict.lookup vni s.held ≡ some l
    → o ≢ l.owner
    → release s vni o token ≡ s
unfolding release
release_by_other s l vni o token h other = ground (arith, h, bytes_equal_iff l.owner o)

-- The lease of `vni` after `change`, which is a call for the VNI `v`.
kept :
    (change : ℕ → LeaseStore) (s : LeaseStore) (l : Lease) (vni v : ℕ)
    → Dict.lookup vni s.held ≡ some l
    → (v ≢ vni → Dict.lookup vni (change v).held ≡ Dict.lookup vni s.held)
    → (v ≢ vni) ⊎ (change vni ≡ s)
    → Dict.lookup vni (change v).held ≡ some l
kept change s l vni v h elsewhere (inl other) = elsewhere other ∙ h
kept change s l vni v h elsewhere (inr same) = elim (ℕ_discrete v vni) [
  | no other ↦ elsewhere other ∙ h
  | yes here ↦
      ap (λ u. Dict.lookup vni (change u).held) here
      ∙ ap (λ (u : LeaseStore). Dict.lookup vni u.held) same
      ∙ h
]

step_keeps :
    (s : LeaseStore) (l : Lease) (vni : ℕ) (call : Call)
    → Apart vni l.owner l.expiry call
    → Dict.lookup vni s.held ≡ some l
    → Dict.lookup vni (step s call).held ≡ some l
unfolding step
step_keeps s l vni (acquires now v o ttl) apart h =
    kept (λ u. (acquire s now u o ttl).0) s l vni v h (acquire_elsewhere s vni now v o ttl)
      (elim apart [
        | inl other ↦ inl other
        | inr (other, live) ↦
            inr (ap (λ p. p.0) (acquire_excluded s now vni o ttl l h (λ e. other (sym e)) live))
      ])
step_keeps s l vni (renews now v o token ttl) apart h =
    kept (λ u. (renew s now u o token ttl).0) s l vni v h (renew_elsewhere s vni now v o token ttl)
      (elim apart [
        | inl other ↦ inl other
        | inr other ↦ inr (renew_by_other s l now vni o token ttl h other)
      ])
step_keeps s l vni (releases v o token) apart h =
    kept (λ u. release s u o token) s l vni v h (release_elsewhere s vni v o token)
      (elim apart [
        | inl other ↦ inl other
        | inr other ↦ inr (release_by_other s l vni o token h other)
      ])

run_keeps :
    (calls : List Call) (s : LeaseStore) (l : Lease) (vni : ℕ)
    → All (Apart vni l.owner l.expiry) calls
    → Dict.lookup vni s.held ≡ some l
    → Dict.lookup vni (run s calls).held ≡ some l
unfolding run
run_keeps [] s l vni apart h = h
run_keeps (call ∷ calls) s l vni (first, apart) h =
    run_keeps calls (step s call) l vni apart (step_keeps s l vni call first h)

-- From the grant of a lease until it expires, and after any calls that are for other VNIs, or by
-- other owners with acquisitions before the expiry only, the lease is held as it was granted,
-- and an acquisition by another owner is refused and changes nothing.
pub lease_excludes :
    (s : LeaseStore) (now now' vni : ℕ) (owner owner' : Bytes) (ttl ttl' : ℕ) (calls : List Call)
    (l : Lease)
    → (acquire s now vni owner ttl).1 ≡ some l
    → All (Apart vni owner l.expiry) calls
    → owner ≢ owner'
    → now' < l.expiry
    → (Dict.lookup vni (run (acquire s now vni owner ttl).0 calls).held ≡ some l)
      × (acquire (run (acquire s now vni owner ttl).0 calls) now' vni owner' ttl'
          ≡ (run (acquire s now vni owner ttl).0 calls, none))
lease_excludes s now now' vni owner owner' ttl ttl' calls l granted apart other live =
    let (_, owned, _, _, stored) = acquire_granted s now vni owner ttl l granted in
    let held =
      run_keeps calls (acquire s now vni owner ttl).0 l vni
        (subst (λ (o : Bytes). All (Apart vni o l.expiry) calls) (sym owned) apart) stored in
    (
      held,
      acquire_excluded (run (acquire s now vni owner ttl).0 calls) now' vni owner' ttl' l held
          (λ same. other (sym owned ∙ same)) live,
    )
