-- ===== src/KeySchedule.antt =====
-- mls/keyschedule: the key schedule.
pub mod GroupContext
pub mod Transcript
pub mod ResumptionPsk
pub mod PskType
pub mod PreSharedKeyId
pub mod Schedule
pub mod PskSecret
pub mod SecretTree
