-- ===== src/Sequencer/Fork.antt =====
-- ironcore/sequencer/fork.go, `EpochAuthenticatorRegistry`: the distinct epoch authenticators that
-- were reported for each group and epoch. The mutex makes each call one step.
pub mod Detection
mod Tests
use mls_go.Prelude.{
  ℕ, Bool, true, false, ◌||◌, Option, none, some, List, [], ◌∷◌, ◌++◌, length, ltb, if◌then◌else◌,
}
use mls_go.Prelude.Dict
use mls_go.Prelude.Dict.{Dict, bytes_equal, bytes_eq}
use mls_go.Syntax.Varint.{Bytes}
use mls_go.Sequencer.Key.{seq_key}

pub record EpochAuthenticatorRegistry : Type 0 where
  pub seen : Dict Bytes (List Bytes)

abbrev pub new_epoch_authenticator_registry : EpochAuthenticatorRegistry
new_epoch_authenticator_registry = record { seen = [] }

-- `r.seen[key]`: a missing key reads as the nil slice.
unfoldable pub seen_at : EpochAuthenticatorRegistry → Bytes → ℕ → List Bytes
seen_at r g epoch = elim (Dict.lookup (seq_key g epoch) r.seen) [ none ↦ [] | some auths ↦ auths ]

-- The loop over the slice, up to the first authenticator that is equal.
unfoldable pub known : List Bytes → Bytes → Bool
known [] auth = false
known (a ∷ auths) auth = bytes_equal a auth || known auths auth

unfoldable pub report :
    EpochAuthenticatorRegistry → Bytes → ℕ → Bytes → EpochAuthenticatorRegistry × Bool
unfolding seen_at known
report r g epoch auth =
    let auths = seen_at r g epoch in
    if known auths auth then (r, ltb 1 (length auths)) else (
      record { seen = Dict.insert (seq_key g epoch) (auths ++ auth ∷ []) r.seen },
      ltb 1 (length (auths ++ auth ∷ [])),
    )

unfoldable pub divergent : EpochAuthenticatorRegistry → Bytes → ℕ → Bool
unfolding seen_at
divergent r g epoch = ltb 1 (length (seen_at r g epoch))

pub record Report : Type 0 where
  pub group : Bytes
  pub epoch : ℕ
  pub auth : Bytes

unfoldable pub run : EpochAuthenticatorRegistry → List Report → EpochAuthenticatorRegistry
run r [] = r
run r (c ∷ reports) = run (report r c.group c.epoch c.auth).0 reports
