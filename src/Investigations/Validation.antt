-- ===== src/Investigations/Validation.antt =====
-- investigations/planning/validation.py: the order of a plan's steps.
pub mod Order
pub mod Counts
pub mod Invariant
pub mod Loop
pub mod Sorted
pub mod Contracts
pub mod Validator
pub mod Arguments
pub mod Sound
pub mod Definitions
pub mod Accepted
