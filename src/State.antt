-- ===== src/State.antt =====
-- dbwarden/engine/generation_state.py: typed schema states, their differences and pending plans.
pub mod Json
pub mod DictLaws
pub mod Changes
pub mod RoundTrip
pub mod Pending
pub mod PendingLaws
pub mod Effective
pub mod Conflicts
mod Tests
