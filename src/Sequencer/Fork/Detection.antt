-- ===== src/Sequencer/Fork/Detection.antt =====
-- Forks over sequences of reports.
use mls_go.Prelude.{
  ℕ, ◌^◌, ◌<◌, ◌≡◌, ◌≢◌, true, false, ◌&&◌, not, ◌⊎◌, List, [], ◌∷◌, ◌++◌, length, length-append,
  arith, inl, inr, if◌then◌else◌, All,
}
use mls_go.Prelude.Dict.{bytes_equal, bytes_equal_iff, lookup-insert, bytes_eq}
use mls_go.Syntax.Varint.{Bytes}
use mls_go.Sequencer.Key.{seq_key, seq_key-injective}
use mls_go.Sequencer.Fork.{
  EpochAuthenticatorRegistry, Report, seen_at, known, report, divergent, run,
}

known-append :
    (auths : List Bytes) (a b : Bytes) → known auths a ≡ true → known (auths ++ b ∷ []) a ≡ true
unfolding known
known-append [] a b h = cc
known-append (c ∷ auths) a b h = ground (arith, known-append auths a b)

known-last : (auths : List Bytes) (a : Bytes) → known (auths ++ a ∷ []) a ≡ true
unfolding known
known-last [] a = ground (arith, bytes_equal_iff a a)
known-last (c ∷ auths) a = ground (arith, known-last auths a)

known-ne : (auths : List Bytes) (a : Bytes) → known auths a ≡ true → 0 < length auths
unfolding known
known-ne [] a h = cc
known-ne (c ∷ auths) a h = ground arith

-- Two distinct members.
known-two :
    (auths : List Bytes) (a b : Bytes)
    → known auths a ≡ true
    → known auths b ≡ true
    → a ≢ b
    → 1 < length auths
unfolding known
known-two [] a b h k other = cc
known-two (c ∷ auths) a b h k other =
    ground (arith, bytes_equal_iff c a, bytes_equal_iff c b, known-ne auths a, known-ne auths b)

report-known :
    (r : EpochAuthenticatorRegistry) (g : Bytes) (e : ℕ) (a : Bytes)
    → known (seen_at (report r g e a).0 g e) a ≡ true
unfolding report
report-known r g e a = ground (
  arith,
  lookup-insert (seq_key g e) (seq_key g e) (seen_at r g e ++ a ∷ []) r.seen,
  bytes_equal_iff (seq_key g e) (seq_key g e),
  known-last (seen_at r g e) a,
)

-- What a report leaves at a slot: the same, or one more authenticator if it is for that slot.
seen_at-report :
    (r : EpochAuthenticatorRegistry) (c : Report) (g : Bytes) (e : ℕ)
    → seen_at (report r c.group c.epoch c.auth).0 g e ≡ (
        if bytes_equal (seq_key c.group c.epoch) (seq_key g e) && not (known (seen_at r g e) c.auth)
        then seen_at r g e ++ c.auth ∷ []
        else seen_at r g e)
unfolding report seen_at
seen_at-report r c g e = ground (
  arith,
  lookup-insert (seq_key c.group c.epoch) (seq_key g e) (seen_at r c.group c.epoch ++ c.auth ∷ [])
      r.seen,
  bytes_equal_iff (seq_key c.group c.epoch) (seq_key g e),
)

report_keeps :
    (r : EpochAuthenticatorRegistry) (c : Report) (g : Bytes) (e : ℕ) (a : Bytes)
    → known (seen_at r g e) a ≡ true
    → known (seen_at (report r c.group c.epoch c.auth).0 g e) a ≡ true
report_keeps r c g e a h =
    ground (arith, seen_at-report r c g e, known-append (seen_at r g e) a c.auth h)

run-known :
    (reports : List Report) (r : EpochAuthenticatorRegistry) (g : Bytes) (e : ℕ) (a : Bytes)
    → known (seen_at r g e) a ≡ true
    → known (seen_at (run r reports) g e) a ≡ true
unfolding run
run-known [] r g e a h = h
run-known (c ∷ reports) r g e a h =
    run-known reports (report r c.group c.epoch c.auth).0 g e a (report_keeps r c g e a h)

report_other :
    (r : EpochAuthenticatorRegistry) (g : Bytes) (e : ℕ) (a b : Bytes)
    → known (seen_at r g e) a ≡ true
    → a ≢ b
    → (report r g e b).1 ≡ true
unfolding report
report_other r g e a b h other = ground (
  arith,
  known-two (seen_at r g e) a b,
  known-ne (seen_at r g e) a h,
  length-append (seen_at r g e) (b ∷ []),
)

-- Once an authenticator is reported for a group and an epoch, a report of another one for the
-- same slot flags a fork, whatever reports come between.
pub report_detects :
    (r : EpochAuthenticatorRegistry) (g : Bytes) (e : ℕ) (a b : Bytes) (reports : List Report)
    → a ≢ b
    → (report (run (report r g e a).0 reports) g e b).1 ≡ true
report_detects r g e a b reports other =
    report_other (run (report r g e a).0 reports) g e a b
      (run-known reports (report r g e a).0 g e a (report-known r g e a)) other

-- A slot at which nothing but `a` was reported.
abbrev Quiet : List Bytes → Bytes → Type 0
Quiet auths a = (auths ≡ []) ⊎ (auths ≡ a ∷ [])

-- A report with a 64-bit epoch that is for another group, or for another epoch, or carries `a`.
abbrev pub Agrees : Bytes → ℕ → Bytes → Report → Type 0
Agrees g e a c = (c.epoch < 2 ^ 64) × ((c.group ≢ g) ⊎ (c.epoch ≢ e) ⊎ (c.auth ≡ a))

report_elsewhere :
    (r : EpochAuthenticatorRegistry) (c : Report) (g : Bytes) (e : ℕ)
    → seq_key c.group c.epoch ≢ seq_key g e
    → seen_at (report r c.group c.epoch c.auth).0 g e ≡ seen_at r g e
report_elsewhere r c g e other =
    ground (arith, seen_at-report r c g e, bytes_equal_iff (seq_key c.group c.epoch) (seq_key g e))

report-Quiet :
    (r : EpochAuthenticatorRegistry) (c : Report) (g : Bytes) (e : ℕ) (a : Bytes)
    → e < 2 ^ 64
    → Agrees g e a c
    → Quiet (seen_at r g e) a
    → Quiet (seen_at (report r c.group c.epoch c.auth).0 g e) a
unfolding known
report-Quiet r c g e a word (word', inr (inr same)) (inl none_yet) =
    ground (arith, seen_at-report r c g e)
report-Quiet r c g e a word (word', inr (inr same)) (inr one) =
    ground (arith, seen_at-report r c g e, bytes_equal_iff a c.auth)
report-Quiet r c g e a word (word', inl other) quiet =
    rw (report_elsewhere r c g e (λ q. other (seq_key-injective _ _ _ _ word' word q).0)) quiet
report-Quiet r c g e a word (word', inr (inl other)) quiet =
    rw (report_elsewhere r c g e (λ q. other (seq_key-injective _ _ _ _ word' word q).1)) quiet

run-Quiet :
    (reports : List Report) (r : EpochAuthenticatorRegistry) (g : Bytes) (e : ℕ) (a : Bytes)
    → e < 2 ^ 64
    → All (Agrees g e a) reports
    → Quiet (seen_at r g e) a
    → Quiet (seen_at (run r reports) g e) a
unfolding run
run-Quiet [] r g e a word same q = q
run-Quiet (c ∷ reports) r g e a word (here, same) q =
    run-Quiet reports (report r c.group c.epoch c.auth).0 g e a word same
      (report-Quiet r c g e a word here q)

-- A group and an epoch for which nothing was reported before are not flagged after any sequence
-- of reports in which those for the same group and the same epoch carry one and the same
-- authenticator; epochs fit 64 bits.
pub divergent-false :
    (r : EpochAuthenticatorRegistry) (g : Bytes) (e : ℕ) (a : Bytes) (reports : List Report)
    → e < 2 ^ 64
    → seen_at r g e ≡ []
    → All (Agrees g e a) reports
    → divergent (run r reports) g e ≡ false
unfolding divergent
divergent-false r g e a reports word fresh same =
    elim (run-Quiet reports r g e a word same (inl fresh)) [
      | inl none_yet ↦ ground (arith, none_yet)
      | inr one ↦ ground (arith, one)
    ]
