-- ===== src/Investigations/Replanning.antt =====
-- investigations/replanning.py: the planning rounds of an investigation.
pub mod Models
pub mod Context
pub mod Deltas
pub mod Rounds
pub mod Chain
pub mod Kept
pub mod Promise
pub mod Runnable
pub mod Total
