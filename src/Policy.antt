-- ===== src/Policy.antt =====
-- policy/: the deterministic merge-readiness policy.
pub mod Models
pub mod Evaluation
pub mod Recording
pub mod Evaluator
pub mod Expected
pub mod Appends
pub mod Additions
pub mod Decision
pub mod Ready
pub mod Support
pub mod Citations
pub mod Supported
pub mod Remedies
pub mod Pairing
