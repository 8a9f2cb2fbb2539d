-- ===== src/Wire.antt =====
-- The protocol messages of `photon.imessage.v1`, as the client sees them through the generated
-- getters: one field for each getter that is called, an `Option` where presence is asked for, a
-- data type for each oneof and enumeration. `none` is also a nil message pointer.
pub mod Common
pub mod Message
pub mod Changes
pub mod Requests
