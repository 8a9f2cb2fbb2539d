-- ===== src/Model.antt =====
-- The domain types of the client (types_*.go, events.go).
pub mod Common
pub mod Attachment
pub mod Effects
pub mod Kinds
pub mod Message
pub mod MessageInput
pub mod Poll
pub mod Group
pub mod Chat
pub mod Location
pub mod Events
