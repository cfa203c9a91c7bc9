-- ===== src/Investigations.antt =====
-- investigations/ and tools/: the agent that runs the tool calls of a validated plan.
pub mod Tools
pub mod Plan
pub mod Evidence
pub mod Execution
pub mod Facts
pub mod PathNormalization
pub mod Hypotheses
pub mod CodeDiagnosis
pub mod Rendering
pub mod Validation
pub mod Relationships
pub mod Replanning
pub mod Runs
