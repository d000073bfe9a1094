-- ===== src/Ironcore/Vni.antt =====
-- ironcore/vni.go: the group of a VNI, and the VNI of a group.
mod Tests
use mls_go.Prelude.{
  ℕ, ◌<◌, ◌^◌, ◌≡◌, refl, sym, ap, ap₂, ◌∙◌, Bool, true, false, not, ◌||◌, List, [], ◌∷◌, ◌++◌, All,
  All-append_right, length, take, drop, take-append-drop, length-drop, ◌==◌, if◌then◌else◌, Result,
  ok, err, arith, inl, inr, Bool-cases, not_vni_group_id, subst,
}
use mls_go.Prelude.Dict.{bytes_equal, bytes_equal_iff}
use mls_go.Syntax.Varint.{Bytes, IsByte}
use mls_go.Syntax.Builder.{be32}
use mls_go.Syntax.Cursor.{from_be}
use mls_go.Syntax.Format.Scalars.{be32-from_be}

-- The bytes of "ICVNI1".
abbrev pub group_id_tag : Bytes
group_id_tag = 0x49 ∷ 0x43 ∷ 0x56 ∷ 0x4e ∷ 0x49 ∷ 0x31 ∷ []

unfoldable pub group_id : ℕ → Bytes
group_id vni = group_id_tag ++ be32 vni

unfoldable pub vni_of_group_id : Bytes → Result ℕ
vni_of_group_id gid =
    if not (length gid == 10) || not (bytes_equal (take 6 gid) group_id_tag)
    then err not_vni_group_id
    else ok (from_be 0 (drop 6 gid))

-- VNIOfGroupID gives back the VNI of every GroupID of a 32-bit VNI.
pub vni_of_group_id-group_id : (vni : ℕ) → vni < 2 ^ 32 → vni_of_group_id (group_id vni) ≡ ok vni
unfolding group_id vni_of_group_id be32 from_be
vni_of_group_id-group_id vni h = ground arith

accepted :
    (gid : Bytes) (vni : ℕ)
    → vni_of_group_id gid ≡ ok vni
    → (length gid ≡ 10) × (take 6 gid ≡ group_id_tag) × (from_be 0 (drop 6 gid) ≡ vni)
unfolding vni_of_group_id
accepted gid vni e = ground (arith, bytes_equal_iff (take 6 gid) group_id_tag)

-- A byte string that VNIOfGroupID accepts is the GroupID of the VNI that it returns, and the VNI
-- fits 32 bits.
pub group_id-vni_of_group_id :
    (gid : Bytes) (vni : ℕ)
    → All IsByte gid
    → vni_of_group_id gid ≡ ok vni
    → (group_id vni ≡ gid) × (vni < 2 ^ 32)
unfolding group_id
group_id-vni_of_group_id gid vni h e =
    let (len, tag, value) = accepted gid vni e in
    let whole : take 6 gid ++ drop 6 gid ≡ gid = take-append-drop 6 gid in
    let bytes : All IsByte (drop 6 gid) =
      All-append_right IsByte (take 6 gid) (drop 6 gid) (subst (All IsByte) (sym whole) h) in
    let (back, fits) = be32-from_be (drop 6 gid) bytes (omega (arith, length-drop 6 gid)) in
    (
      ap₂ (λ (t n : Bytes). t ++ n) (sym tag) (ap be32 (sym value) ∙ back) ∙ whole,
      omega (arith, value, fits),
    )
