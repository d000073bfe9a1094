-- ===== src/Sequencer/Register.antt =====
-- ironcore/sequencer/fencing.go, `FencedRegister`: a write-once register for each group and epoch
-- that refuses writes with a stale fencing token.
pub mod Fencing
use mls_go.Prelude.{ℕ, ◌<◌, Bool, true, Option, none, some, List, [], ◌∷◌, ltb, if◌then◌else◌}
use mls_go.Prelude.Dict
use mls_go.Prelude.Dict.{Dict, bytes_equal, bytes_eq, nat_eq}
use mls_go.Syntax.Varint.{Bytes}
use mls_go.Sequencer.Key.{seq_key, clone_ref}

pub record FencedRegister : Type 0 where
  pub decided : Dict Bytes Bytes
  pub max_token : Dict ℕ ℕ

abbrev pub new_fenced_register : FencedRegister
new_fenced_register = record { decided = []; max_token = [] }

-- `(bool, error)`: `fenced` is `ErrFenced`.
pub data Answer : Type 0 where
  fenced : Answer
  answer : Bool → Answer

-- A missing key reads as 0.
unfoldable pub highest : FencedRegister → ℕ → ℕ
highest r vni = elim (Dict.lookup vni r.max_token) [ none ↦ 0 | some t ↦ t ]

unfoldable pub accept : FencedRegister → ℕ → ℕ → Bytes → ℕ → Bytes → FencedRegister × Answer
unfolding highest
accept r vni token g epoch commit =
    if ltb token (highest r vni)
    then (r, fenced)
    else let seen = Dict.insert vni token r.max_token in
      elim (Dict.lookup (seq_key g epoch) r.decided) [
        | some ex ↦ (record r { max_token = seen }, answer (bytes_equal ex commit))
        | none ↦ (
          record {
            decided = Dict.insert (seq_key g epoch) (clone_ref commit) r.decided;
            max_token = seen;
          },
          answer true,
        )
      ]

unfoldable pub decided : FencedRegister → Bytes → ℕ → Option Bytes
decided r g epoch = elim (Dict.lookup (seq_key g epoch) r.decided) [
  | none ↦ none
  | some ref ↦ some (clone_ref ref)
]

pub record Write : Type 0 where
  pub vni : ℕ
  pub token : ℕ
  pub group : Bytes
  pub epoch : ℕ
  pub commit : Bytes

abbrev pub accept_write : FencedRegister → Write → FencedRegister × Answer
accept_write r w = accept r w.vni w.token w.group w.epoch w.commit

unfoldable pub run : FencedRegister → List Write → FencedRegister
run r [] = r
run r (w ∷ writes) = run (accept_write r w).0 writes
