-- ===== src/Store.antt =====
-- src/store: Sin90's own persistence.
pub mod Json
pub mod Errors
pub mod Rows
pub mod Slug
pub mod Tables
pub mod ApplyOp
pub mod Proposals
pub mod Direct
pub mod Daily
pub mod Routines
pub mod Outbox
