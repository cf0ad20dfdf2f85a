-- ===== src/JobQ/Proofs.antt =====
-- What the store promises: one row at a time, fencing, and the life of a row.
pub mod Effects
pub mod Claiming
pub mod Rows
pub mod Histories
pub mod Validity
pub mod Fencing
pub mod Calls
