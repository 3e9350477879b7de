-- ===== src/Severity.antt =====
-- dbwarden/engine/safety: the severity of operations and of files, and the ceiling of a run.
pub mod Documents
pub mod Sealing
pub mod Levels
pub mod Operations
pub mod Plans
pub mod Categories
pub mod Trust
pub mod CheckLaws
pub mod EntryLaws
pub mod TrustLaws
pub mod Trusted
pub mod BindLaws
pub mod Bound
pub mod Passes
pub mod Accepted
pub mod OperationLaws
pub mod Scope
pub mod ScopeLaws
mod Tests
mod PlanTests
