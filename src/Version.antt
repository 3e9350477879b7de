-- ===== src/Version.antt =====
-- dbwarden/engine/version.py: migration files, their versions, dependencies and order.
pub mod Resolve
pub mod ResolveLaws
pub mod Order
pub mod Ranking
pub mod Names
pub mod NameLaws
pub mod Files
pub mod FileLaws
pub mod Repeatables
pub mod RepeatableLaws
pub mod Validate
pub mod Search
pub mod Cycles
pub mod Unseen
pub mod SearchLaws
pub mod CycleLaws
pub mod PendingLaws
pub mod Validated
pub mod ValidateLaws
pub mod Reports
pub mod ValidOrder
pub mod Next
pub mod NextLaws
mod Tests
mod NameTests
mod FileTests
mod RepeatableTests
mod NextTests
mod SearchTests
