-- ===== src/Workflow.antt =====
-- workflows/merge_readiness.py: the run of the three steps, with its snapshots and its telemetry.
pub mod World
pub mod Recording
pub mod Service
pub mod Endings
pub mod Ending
pub mod Hoare
pub mod Steps
pub mod Snapshots
pub mod Verdict
