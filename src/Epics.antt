-- ===== src/Epics.antt =====
-- internal/verb/epics.go, internal/verb/criteria.go and internal/verb/close_conditions.go: the life of an epic.
pub mod Blockers
pub mod Verbs
pub mod Queries
pub mod Runs
pub mod Close
pub mod Slugs
pub mod Checks
pub mod Legal
pub mod Moves
mod Tests
