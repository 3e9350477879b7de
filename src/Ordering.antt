-- ===== src/Ordering.antt =====
-- dbwarden/engine/core/ordering.py and statement_order.py: where statements stand in a migration.
pub mod Values
pub mod Anchors
pub mod AnchorLaws
pub mod Statements
pub mod StatementLaws
pub mod Handlers
pub mod Counts
pub mod Ready
pub mod HandlerLaws
pub mod EdgeCounts
pub mod Edges
pub mod HandlerOrder
pub mod OrderLaws
pub mod Cycles
pub mod Asked
pub mod Stuck
mod HandlerTests
mod Tests
