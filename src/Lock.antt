-- ===== src/Lock.antt =====
-- dbwarden/lock: the migration lock, its recovery state machine, heartbeat and ClickHouse lease.
pub mod State
pub mod Transitions
pub mod Recovery
pub mod Heartbeat
pub mod Lease
mod Tests
