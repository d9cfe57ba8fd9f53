-- ===== src/Msg.antt =====
-- The messages between master and controllers (msg/).
pub mod Message
pub mod TaskAssign
pub mod Factory
pub mod RoundTrip
pub mod AssignText
pub mod TaskTransfer
