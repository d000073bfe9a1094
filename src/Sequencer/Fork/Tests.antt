-- ===== src/Sequencer/Fork/Tests.antt =====
-- Reports for a group at two epochs.
use mls_go.Prelude.{ℕ, ◌≡◌, ◌≢◌, inl, inr, refl, true, false, List, [], ◌∷◌, arith}
use mls_go.Prelude.Dict
use mls_go.Prelude.Dict.{bytes_equal, bytes_eq, nat_eq}
use mls_go.Syntax.Varint.{Bytes}
use mls_go.Sequencer.Fork
use mls_go.Sequencer.Fork.{new_epoch_authenticator_registry, Report}
use mls_go.Sequencer.Fork.Detection.{report_detects, divergent-false}

abbrev group : Bytes
group = 7 ∷ 8 ∷ []

abbrev first : Bytes
first = 1 ∷ []

abbrev second : Bytes
second = 2 ∷ []

abbrev third : ℕ
third = 3

abbrev reports : List Report
reports =
    record { group = group; epoch = third; auth = first }
    ∷ record { group = group; epoch = 4; auth = second }
    ∷ record { group = group; epoch = third; auth = first }
    ∷ []

first-ne-second : first ≢ second
first-ne-second same = cc same

report_detects_example :
    (Fork.report
      (Fork.run (Fork.report new_epoch_authenticator_registry group third first).0 reports)
      group
      third
      second).1
    ≡ true
report_detects_example =
    report_detects new_epoch_authenticator_registry group third first second reports first-ne-second

divergent-false_example :
    Fork.divergent (Fork.run new_epoch_authenticator_registry reports) group third ≡ false
unfolding Fork.seen_at Dict.lookup
divergent-false_example =
    divergent-false new_epoch_authenticator_registry group third first reports (omega arith) refl (
      (omega arith, inr (inr refl)),
      ((omega arith, inr (inl (omega arith))), ((omega arith, inr (inr refl)), tt)),
    )
