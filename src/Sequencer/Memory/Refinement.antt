-- ===== src/Sequencer/Memory/Refinement.antt =====
-- `MemorySequencer` and its specification, a register that may be written once for each slot.
use mls_go.Prelude.{
  ℕ, ◌≡◌, ◌^◌, ◌<◌, Bool, true, ◌&&◌, Option, none, some, arith, if◌then◌else◌, ◌==◌,
}
use mls_go.Prelude.Dict.{bytes_equal, bytes_equal_iff, lookup-insert, bytes_eq}
use mls_go.Syntax.Varint.{Bytes}
use mls_go.Sequencer.Key.{seq_key, seq_key-injective}
use mls_go.Sequencer.Memory.{MemorySequencer, accept_commit, decided}

-- The specification: a register that may be written once at each group and epoch.
abbrev pub WriteOnce : Type 0
WriteOnce = Bytes → ℕ → Option Bytes

abbrev pub spec_accept : WriteOnce → Bytes → ℕ → Bytes → WriteOnce × Bool
spec_accept r g e c = elim (r g e) [
  | some d ↦ (r, bytes_equal d c)
  | none ↦ (λ g' e'. if bytes_equal g g' && e == e' then some c else r g' e', true)
]

-- A register's decisions are those of the specification, at every group and 64-bit epoch.
abbrev pub Refines : MemorySequencer → WriteOnce → Type 0
Refines s r = (g : Bytes) (e : ℕ) → e < 2 ^ 64 → decided s g e ≡ r g e

same_slot :
    (g g' : Bytes) (e e' : ℕ)
    → e < 2 ^ 64
    → e' < 2 ^ 64
    → bytes_equal (seq_key g e) (seq_key g' e') ≡ (bytes_equal g g' && e == e')
same_slot g g' e e' h h' = ground (
  arith,
  bytes_equal_iff (seq_key g e) (seq_key g' e'),
  bytes_equal_iff g g',
  seq_key-injective g g' e e' h h',
)

-- The memory sequencer, with its one map keyed by seqKey, implements a register for each group
-- and 64-bit epoch that may be written once.
pub accept_commit-Refines :
    (s : MemorySequencer) (r : WriteOnce) (g : Bytes) (e : ℕ) (c : Bytes)
    → e < 2 ^ 64
    → Refines s r
    → ((accept_commit s g e c).1 ≡ (spec_accept r g e c).1)
      × Refines (accept_commit s g e c).0 (spec_accept r g e c).0
unfolding accept_commit decided
accept_commit-Refines s r g e c h agree = (
  ground (arith, agree g e h),
  λ g' e' h'. ground (
    arith,
    agree g e h,
    agree g' e' h',
    same_slot g g' e e' h h',
    lookup-insert (seq_key g e) (seq_key g' e') c s.decided,
  ),
)
