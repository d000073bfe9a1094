-- ===== src/Sequencer/Key.antt =====
-- ironcore/sequencer/sequencer.go, `seqKey`: the map key of a group and an epoch.
use mls_go.Prelude.{ℕ, ◌^◌, ◌<◌, ◌≡◌, ◌++◌, [], take, drop, refl, ap, sym, ◌∙◌}
use mls_go.Syntax.Varint.{Bytes}
use mls_go.Syntax.Builder.{be64}
use mls_go.Syntax.Format.Scalars.{be64-injective}

-- Eight big-endian bytes of the epoch, and the bytes of the group.
unfoldable pub seq_key : Bytes → ℕ → Bytes
seq_key g epoch = be64 epoch ++ g

-- `cloneRef`: values do not alias in the model, so a copy is the value itself.
abbrev pub clone_ref : Bytes → Bytes
clone_ref r = r

length-be64 : (e : ℕ) → drop 8 (be64 e) ≡ []
unfolding be64
length-be64 e = refl

take_epoch : (g : Bytes) (e : ℕ) → take 8 (be64 e ++ g) ≡ be64 e
unfolding be64
take_epoch g e = refl

drop_epoch : (g : Bytes) (e : ℕ) → drop 8 (be64 e ++ g) ≡ g
unfolding be64
drop_epoch g e = refl

-- Two slots with 64-bit epochs share a map key only if they are the same group and epoch.
pub seq_key-injective :
    (g g' : Bytes) (e e' : ℕ)
    → e < 2 ^ 64
    → e' < 2 ^ 64
    → seq_key g e ≡ seq_key g' e'
    → (g ≡ g') × (e ≡ e')
unfolding seq_key
seq_key-injective g g' e e' h h' q = (
  sym (drop_epoch g e) ∙ ap (drop 8) q ∙ drop_epoch g' e',
  be64-injective e e' h h' (sym (take_epoch g e) ∙ ap (take 8) q ∙ take_epoch g' e'),
)
