-- ===== src/Ironcore/Vni/Tests.antt =====
-- VNI 42.
use mls_go.Prelude.{◌<◌, ◌^◌, ◌≡◌, refl, [], ◌∷◌, arith}
use mls_go.Syntax.Varint.{Bytes}
use mls_go.Syntax.Cursor.{from_be}
use mls_go.Ironcore.Vni.{group_id, vni_of_group_id, group_id-vni_of_group_id}

abbrev forty_two : Bytes
forty_two = 0x49 ∷ 0x43 ∷ 0x56 ∷ 0x4e ∷ 0x49 ∷ 0x31 ∷ 0 ∷ 0 ∷ 0 ∷ 42 ∷ []

group_id-vni_of_group_id_example : (group_id 42 ≡ forty_two) × (42 < 2 ^ 32)
unfolding vni_of_group_id from_be
group_id-vni_of_group_id_example = group_id-vni_of_group_id forty_two 42 (omega arith) refl
