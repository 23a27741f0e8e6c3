-- ===== src/Examples.antt =====
-- Tests and instances at concrete inputs.
mod Rules
mod Proposals
mod Outbox
mod Pump
mod Routines
mod Store
mod Direct
mod Daily
