-- ===== src/Investigations/Execution.antt =====
-- investigations/execution.py: `AgentExecutor`.
pub mod State
pub mod Locals
pub mod Executor
pub mod Retries
pub mod Settling
pub mod Progress
pub mod Safety
pub mod Iteration
pub mod Outcome
pub mod Listing
pub mod Guarantee
pub mod Drawn
pub mod Storage
pub mod Returns
pub mod Total
pub mod Termination
