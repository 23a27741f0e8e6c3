-- ===== src/Adapter.antt =====
-- src/adapter_agent24: the half of Sin90 that talks to the kernel.
pub mod Apply
pub mod Delivery
pub mod Reconcile
