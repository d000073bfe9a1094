-- ===== src/Sequencer/Memory.antt =====
-- ironcore/sequencer/sequencer.go, `MemorySequencer`: a register for each group and epoch that
-- the first writer decides. The mutex makes each call one step, so concurrent callers are a
-- sequence of calls.
pub mod Agreement
pub mod Refinement
use mls_go.Prelude.{ℕ, Bool, true, Option, none, some, List, [], ◌∷◌}
use mls_go.Prelude.Dict
use mls_go.Prelude.Dict.{Dict, bytes_equal, bytes_eq}
use mls_go.Syntax.Varint.{Bytes}
use mls_go.Sequencer.Key.{seq_key, clone_ref}

pub record MemorySequencer : Type 0 where
  pub decided : Dict Bytes Bytes

abbrev pub new_memory_sequencer : MemorySequencer
new_memory_sequencer = record { decided = [] }

-- The answer to the caller, with the error left out: it is always nil.
unfoldable pub accept_commit : MemorySequencer → Bytes → ℕ → Bytes → MemorySequencer × Bool
accept_commit s g epoch commit = elim (Dict.lookup (seq_key g epoch) s.decided) [
  | some ex ↦ (s, bytes_equal ex commit)
  | none ↦ (record { decided = Dict.insert (seq_key g epoch) (clone_ref commit) s.decided }, true)
]

unfoldable pub decided : MemorySequencer → Bytes → ℕ → Option Bytes
decided s g epoch = elim (Dict.lookup (seq_key g epoch) s.decided) [
  | none ↦ none
  | some r ↦ some (clone_ref r)
]

pub record Call : Type 0 where
  pub group : Bytes
  pub epoch : ℕ
  pub commit : Bytes

-- The state after a sequence of calls, in the order in which they take the mutex.
unfoldable pub run : MemorySequencer → List Call → MemorySequencer
run s [] = s
run s (call ∷ calls) = run (accept_commit s call.group call.epoch call.commit).0 calls
