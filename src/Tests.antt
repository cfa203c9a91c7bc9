-- ===== src/Tests.antt =====
-- Runs of the definitions on concrete inputs, with the facts and the runs that they share.
pub mod Data
pub mod Policy
pub mod Runtime
pub mod Workflow
pub mod Execution
pub mod Relationships
pub mod Validation
pub mod Grounding
mod Rendering
pub mod Replanning
mod Runs
