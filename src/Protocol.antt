-- ===== src/Protocol.antt =====
-- packages/protocol/src: the constants, the messages and the client's outbox.
pub mod Limits
pub mod Messages
pub mod Value
pub mod Validation
pub mod Wire
pub mod Outbox
pub mod Server
pub mod Realtime
mod Tests
