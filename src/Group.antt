-- ===== src/Group.antt =====
-- mls/group: the protocol objects and the group.
pub mod KeyPackage
pub mod ReInit
pub mod Proposal
pub mod ProposalOrRef
pub mod Commit
pub mod PathSecret
pub mod GroupSecrets
pub mod EncryptedGroupSecrets
pub mod Welcome
pub mod GroupInfo
