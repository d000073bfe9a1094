-- ===== src/Sequencer/Lease.antt =====
-- ironcore/sequencer/fencing.go, `MemoryLeaseStore`: who owns a VNI, and with which fencing token.
-- Times and durations are numbers of nanoseconds; the injected clock's reading is an argument.
pub mod Exclusion
pub mod Tokens
use mls_go.Prelude.{
  ℕ, ◌+◌, ◌%◌, ◌^◌, Bool, not, ◌&&◌, Option, none, some, List, [], ◌∷◌, ltb, ◌==◌, if◌then◌else◌,
}
use mls_go.Prelude.Dict
use mls_go.Prelude.Dict.{Dict, bytes_equal, nat_eq}
use mls_go.Syntax.Varint.{Bytes}

pub record Lease : Type 0 where
  pub vni : ℕ
  pub owner : Bytes
  pub token : ℕ
  pub expiry : ℕ

-- `now.Before(l.Expiry)`
abbrev pub valid : Lease → ℕ → Bool
valid l now = ltb now l.expiry

pub record LeaseStore : Type 0 where
  pub held : Dict ℕ Lease
  pub next : Dict ℕ ℕ

abbrev pub new_lease_store : LeaseStore
new_lease_store = record { held = []; next = [] }

-- A missing key reads as 0.
unfoldable pub next_token : LeaseStore → ℕ → ℕ
next_token s vni = elim (Dict.lookup vni s.next) [ none ↦ 0 | some t ↦ t ]

-- The test that fences out a caller: another owner holds a valid lease.
unfoldable pub held_by_other : Option Lease → Bytes → ℕ → Bool
held_by_other none owner now = Bool.false
held_by_other (some cur) owner now = not (bytes_equal cur.owner owner) && valid cur now

unfoldable pub grant : LeaseStore → ℕ → ℕ → Bytes → ℕ → LeaseStore × Option Lease
grant s now vni owner ttl =
    let token = (next_token s vni + 1) % 2 ^ 64 in
    let l : Lease = record { vni = vni; owner = owner; token = token; expiry = now + ttl } in
    (record { held = Dict.insert vni l s.held; next = Dict.insert vni token s.next }, some l)

-- `none` is `ok = false`; the error is always nil.
unfoldable pub acquire : LeaseStore → ℕ → ℕ → Bytes → ℕ → LeaseStore × Option Lease
unfolding next_token grant held_by_other
acquire s now vni owner ttl =
    if held_by_other (Dict.lookup vni s.held) owner now
    then (s, none)
    else grant s now vni owner ttl

abbrev mine : Lease → Bytes → ℕ → Bool
mine cur owner token = bytes_equal cur.owner owner && cur.token == token

unfoldable pub renew : LeaseStore → ℕ → ℕ → Bytes → ℕ → ℕ → LeaseStore × Option Lease
renew s now vni owner token ttl = elim (Dict.lookup vni s.held) [
  | none ↦ (s, none)
  | some cur ↦
      let l = record cur { expiry = now + ttl } in
      if mine cur owner token
      then (record s { held = Dict.insert vni l s.held }, some l)
      else (s, none)
]

unfoldable pub release : LeaseStore → ℕ → Bytes → ℕ → LeaseStore
release s vni owner token = elim (Dict.lookup vni s.held) [
  | none ↦ s
  | some cur ↦ if mine cur owner token then record s { held = Dict.delete vni s.held } else s
]

pub data Call : Type 0 where
  acquires : ℕ → ℕ → Bytes → ℕ → Call
  renews : ℕ → ℕ → Bytes → ℕ → ℕ → Call
  releases : ℕ → Bytes → ℕ → Call

unfoldable pub step : LeaseStore → Call → LeaseStore
step s (acquires now vni owner ttl) = (acquire s now vni owner ttl).0
step s (renews now vni owner token ttl) = (renew s now vni owner token ttl).0
step s (releases vni owner token) = release s vni owner token

unfoldable pub run : LeaseStore → List Call → LeaseStore
run s [] = s
run s (call ∷ calls) = run (step s call) calls
