-- ===== src/Sequencer/Memory/Agreement.antt =====
-- What a later state of the register keeps of an earlier one.
use mls_go.Prelude.{ℕ, ◌≡◌, ◌≢◌, true, false, some, List, [], ◌∷◌, arith, inl, inr, Option-cases}
use mls_go.Prelude.Dict
use mls_go.Prelude.Dict.{bytes_equal, bytes_equal_iff, lookup-insert, bytes_eq}
use mls_go.Syntax.Varint.{Bytes}
use mls_go.Sequencer.Key.{seq_key}
use mls_go.Sequencer.Memory.{MemorySequencer, Call, accept_commit, decided, run}

-- One call leaves a decided slot alone, whichever slot it is for.
accept_commit_keeps :
    (s : MemorySequencer) (call : Call) (g : Bytes) (e : ℕ) (c : Bytes)
    → decided s g e ≡ some c
    → decided (accept_commit s call.group call.epoch call.commit).0 g e ≡ some c
unfolding accept_commit decided
accept_commit_keeps s call g e c h = ground (
  arith,
  lookup-insert (seq_key call.group call.epoch) (seq_key g e) call.commit s.decided,
  bytes_equal_iff (seq_key call.group call.epoch) (seq_key g e),
)

-- A decided commit stays decided through any sequence of calls.
pub run-decided :
    (calls : List Call) (s : MemorySequencer) (g : Bytes) (e : ℕ) (c : Bytes)
    → decided s g e ≡ some c
    → decided (run s calls) g e ≡ some c
unfolding run
run-decided [] s g e c h = h
run-decided (call ∷ calls) s g e c h =
    run-decided calls (accept_commit s call.group call.epoch call.commit).0 g e c
      (accept_commit_keeps s call g e c h)

-- An accepted commit is the decided one.
pub accept_commit-decided :
    (s : MemorySequencer) (g : Bytes) (e : ℕ) (c : Bytes)
    → (accept_commit s g e c).1 ≡ true
    → decided (accept_commit s g e c).0 g e ≡ some c
unfolding accept_commit decided
accept_commit-decided s g e c h = elim (Option-cases (Dict.lookup (seq_key g e) s.decided)) [
  | inl free ↦ ground (
    arith,
    lookup-insert (seq_key g e) (seq_key g e) c s.decided,
    bytes_equal_iff (seq_key g e) (seq_key g e),
  )
  | inr (ex, taken) ↦ ground (arith, taken, bytes_equal_iff ex c)
]

-- On a decided slot a call answers whether its commit is the decided one, and changes nothing.
pub accept_commit_again :
    (s : MemorySequencer) (g : Bytes) (e : ℕ) (c c' : Bytes)
    → decided s g e ≡ some c
    → accept_commit s g e c' ≡ (s, bytes_equal c c')
unfolding accept_commit decided
accept_commit_again s g e c c' h = ground arith

-- Once AcceptCommit of the memory sequencer has accepted a commit for a group and an epoch,
-- every later call for that slot, whatever calls come between, answers whether its commit is the
-- same and leaves the register as it is.
pub accept_commit_agreement :
    (s : MemorySequencer) (g : Bytes) (e : ℕ) (c : Bytes) (calls : List Call) (c' : Bytes)
    → (accept_commit s g e c).1 ≡ true
    → accept_commit (run (accept_commit s g e c).0 calls) g e c'
      ≡ (run (accept_commit s g e c).0 calls, bytes_equal c c')
accept_commit_agreement s g e c calls c' h =
    accept_commit_again (run (accept_commit s g e c).0 calls) g e c c'
      (run-decided calls (accept_commit s g e c).0 g e c (accept_commit-decided s g e c h))

-- A commit that the memory sequencer refuses finds another commit decided for its slot, and
-- changes nothing.
pub accept_commit_refused :
    (s : MemorySequencer) (g : Bytes) (e : ℕ) (c : Bytes)
    → (accept_commit s g e c).1 ≡ false
    → (d : Bytes) × (decided s g e ≡ some d) × (d ≢ c) × ((accept_commit s g e c).0 ≡ s)
unfolding accept_commit decided
accept_commit_refused s g e c h = elim (Option-cases (Dict.lookup (seq_key g e) s.decided)) [
  | inl free ↦ absurd (ground (arith, free))
  | inr (ex, taken) ↦ (
    ex,
    ground (arith, taken),
    λ q. ground (arith, taken, bytes_equal_iff ex c),
    ground (arith, taken),
  )
]
