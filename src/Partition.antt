-- ===== src/Partition.antt =====
-- dbwarden/engine/safety/partition.py: operations, their dependencies, and their split in two parts.
pub mod Dependencies
pub mod Split
pub mod Missing
pub mod Closure
pub mod InOrder
pub mod Parts
pub mod SplitLaws
mod Tests
