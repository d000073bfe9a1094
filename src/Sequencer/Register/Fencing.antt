-- ===== src/Sequencer/Register/Fencing.antt =====
-- Fencing tokens and decided slots over sequences of writes.
use mls_go.Prelude.{
  ℕ, ◌≤◌, ◌<◌, ◌≡◌, Bool, true, some, List, [], ◌∷◌, arith, ==_iff, Option-cases, inl, inr,
}
use mls_go.Prelude.Dict
use mls_go.Prelude.Dict.{bytes_equal, bytes_equal_iff, lookup-insert, bytes_eq, nat_eq}
use mls_go.Syntax.Varint.{Bytes}
use mls_go.Sequencer.Key.{seq_key}
use mls_go.Sequencer.Register.{
  FencedRegister, fenced, answer, highest, accept, accept_write, decided, Write, run,
}

-- One write lowers no VNI's highest token.
highest-accept :
    (r : FencedRegister) (w : Write) (v : ℕ) → highest r v ≤ highest (accept_write r w).0 v
unfolding accept
highest-accept r w v = ground (arith, lookup-insert w.vni v w.token r.max_token, ==_iff w.vni v)

pub highest-run :
    (writes : List Write) (r : FencedRegister) (v : ℕ) → highest r v ≤ highest (run r writes) v
unfolding run
highest-run [] r v = omega arith
highest-run (w ∷ writes) r v =
    omega (arith, highest-accept r w v, highest-run writes (accept_write r w).0 v)

-- A write that is not fenced leaves its token as the highest of its VNI.
highest-accept_answer :
    (r : FencedRegister) (w : Write) (b : Bool)
    → (accept_write r w).1 ≡ answer b
    → highest (accept_write r w).0 w.vni ≡ w.token
unfolding accept
highest-accept_answer r w b h =
    ground (arith, lookup-insert w.vni w.vni w.token r.max_token, ==_iff w.vni w.vni)

-- A write is fenced exactly when its token is below the highest that was seen for its VNI, and then
-- it changes nothing.
pub accept_fenced_iff :
    (r : FencedRegister) (w : Write)
    → ((accept_write r w).1 ≡ fenced → w.token < highest r w.vni)
      × (w.token < highest r w.vni → accept_write r w ≡ (r, fenced))
unfolding accept
accept_fenced_iff r w = (λ h. ground arith, λ h. ground arith)

-- After the fenced register has let a write with a newer token through, a write for the same VNI
-- with an older token is fenced, whatever writes come between, and changes nothing.
pub stale_write_fenced :
    (r : FencedRegister) (w : Write) (b : Bool) (writes : List Write) (stale : Write)
    → (accept_write r w).1 ≡ answer b
    → stale.vni ≡ w.vni
    → stale.token < w.token
    → accept_write (run (accept_write r w).0 writes) stale
      ≡ (run (accept_write r w).0 writes, fenced)
stale_write_fenced r w b writes stale h same old =
    (accept_fenced_iff (run (accept_write r w).0 writes) stale).1 (
      rw same (
        omega
          (arith, highest-accept_answer r w b h, highest-run writes (accept_write r w).0 w.vni)))

accept_keeps :
    (r : FencedRegister) (w : Write) (g : Bytes) (e : ℕ) (c : Bytes)
    → decided r g e ≡ some c
    → decided (accept_write r w).0 g e ≡ some c
unfolding accept decided
accept_keeps r w g e c h = ground (
  arith,
  lookup-insert (seq_key w.group w.epoch) (seq_key g e) w.commit r.decided,
  bytes_equal_iff (seq_key w.group w.epoch) (seq_key g e),
)

pub run-decided :
    (writes : List Write) (r : FencedRegister) (g : Bytes) (e : ℕ) (c : Bytes)
    → decided r g e ≡ some c
    → decided (run r writes) g e ≡ some c
unfolding run
run-decided [] r g e c h = h
run-decided (w ∷ writes) r g e c h =
    run-decided writes (accept_write r w).0 g e c (accept_keeps r w g e c h)

accept-decided :
    (r : FencedRegister) (w : Write)
    → (accept_write r w).1 ≡ answer true
    → decided (accept_write r w).0 w.group w.epoch ≡ some w.commit
unfolding accept decided
accept-decided r w h = elim (Option-cases (Dict.lookup (seq_key w.group w.epoch) r.decided)) [
  | inl free ↦ ground (
    arith,
    free,
    lookup-insert (seq_key w.group w.epoch) (seq_key w.group w.epoch) w.commit r.decided,
    bytes_equal_iff (seq_key w.group w.epoch) (seq_key w.group w.epoch),
  )
  | inr (ex, taken) ↦ ground (arith, taken, bytes_equal_iff ex w.commit)
]

-- On a decided slot only the decided commit is accepted.
accept_only_decided :
    (r : FencedRegister) (w : Write) (c : Bytes)
    → decided r w.group w.epoch ≡ some c
    → (accept_write r w).1 ≡ answer true
    → w.commit ≡ c
unfolding accept decided
accept_only_decided r w c h e = ground (arith, bytes_equal_iff c w.commit)

-- Two writes that the fenced register accepts for one group and epoch carry the same commit,
-- whatever their VNIs and tokens and whatever writes come between.
pub accepted_writes_agree :
    (r : FencedRegister) (w : Write) (writes : List Write) (w' : Write)
    → (accept_write r w).1 ≡ answer true
    → w'.group ≡ w.group
    → w'.epoch ≡ w.epoch
    → (accept_write (run (accept_write r w).0 writes) w').1 ≡ answer true
    → w'.commit ≡ w.commit
accepted_writes_agree r w writes w' h eg ee h' =
    accept_only_decided (run (accept_write r w).0 writes) w' w.commit
      (rw (eg, ee)
        (run-decided writes (accept_write r w).0 w.group w.epoch w.commit (accept-decided r w h)))
      h'
