-- ===== src/Convert.antt =====
-- The conversions between the protocol and the domain types (conv_*.go), and their properties.
pub mod Common
pub mod Attachment
pub mod Content
pub mod Message
pub mod Events
pub mod Poll
pub mod Location
pub mod Outgoing
