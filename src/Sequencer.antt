-- ===== src/Sequencer.antt =====
-- ironcore/sequencer: the ordering authority.
mod Tests
pub mod Key
pub mod Memory
pub mod Lease
pub mod Register
pub mod Fenced
pub mod Fork
pub mod TieBreak
