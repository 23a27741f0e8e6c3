-- ===== src/Core.antt =====
-- src/core: the pure domain layer.
pub mod Types
pub mod Transitions
pub mod Proposal
pub mod Cron
