-- ===== src/Core/Proposal.antt =====
-- src/core/proposal.rs: proposals, and the pure validator `validate` with its working view.
pub mod Alloc
pub mod Errors
pub mod Working
pub mod Validate
pub mod Batch
pub mod Runs
pub mod Overlay
pub mod Placement
pub mod Asked
