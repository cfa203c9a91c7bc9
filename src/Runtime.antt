-- ===== src/Runtime.antt =====
-- runtime/: the lifecycle of a merge-readiness run and of its steps, and the repositories.
pub mod Models
pub mod State
pub mod Lifecycle
pub mod Repository
pub mod Recurrence
