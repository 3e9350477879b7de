-- ===== src/Naming.antt =====
-- dbwarden/engine/migration_name.py: the names that migrations are given.
pub mod Truncate
pub mod TruncateLaws
mod Tests
