-- ===== src/Framing.antt =====
-- mls/framing: message framing.
mod Tests
pub mod Sender
pub mod PrivateMessage
pub mod Skim
pub mod Content
pub mod AuthData
pub mod PublicMessage
pub mod AuthenticatedContent
pub mod Generate
pub mod MlsMessage
