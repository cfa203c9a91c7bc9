-- ===== src/Investigations/Runs.antt =====
-- workflows/investigation.py: the runs of investigations.
pub mod Models
pub mod Snapshots
pub mod World
pub mod Prior
pub mod Completion
pub mod Service
pub mod Effects
pub mod Completed
pub mod Budget
pub mod Saved
pub mod Ending
pub mod Continuing
pub mod Cases
pub mod Readable
pub mod Answered
pub mod Completing
