-- ===== src/Room.antt =====
-- apps/realtime/src/drawing-room.ts: the durable object that keeps one room.
pub mod Log
pub mod Tokens
pub mod State
pub mod Persist
pub mod History
pub mod Activity
pub mod TimeLimit
pub mod Abuse
pub mod Chat
pub mod Cursor
pub mod Tickets
pub mod Store
pub mod Lifecycle
pub mod Discard
pub mod Snapshots
pub mod Provision
pub mod Moderation
pub mod Replay
pub mod Offers
mod Tests
