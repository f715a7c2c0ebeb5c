-- ===== src/Snapshot.antt =====
-- apps/realtime/src/snapshot-automation.ts: when a room asks for a snapshot.
pub mod Automation
pub mod Decision
mod Tests
