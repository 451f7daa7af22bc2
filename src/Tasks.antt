-- ===== src/Tasks.antt =====
-- internal/verb/tasks.go: the life of a task.
pub mod Lifecycle
pub mod Edit
pub mod Rows
pub mod Updates
pub mod Bounds
