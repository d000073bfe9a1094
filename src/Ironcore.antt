-- ===== src/Ironcore.antt =====
-- ironcore: the key agreement of a fabric, a group for each virtual network (VNI).
pub mod Vni
pub mod SecurityAssociation
