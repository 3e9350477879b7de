-- ===== src/Execution.antt =====
-- dbwarden/repositories/migrations_repo.py: how the statements of a migration are run and recorded.
pub mod Calls
pub mod Run
pub mod Rules
pub mod Durable
pub mod Steps
pub mod Atomic
pub mod Connection
pub mod Autocommit
pub mod Outcome
pub mod Writes
pub mod Repeats
pub mod Quiet
pub mod Branches
pub mod Fencing
mod Tests
