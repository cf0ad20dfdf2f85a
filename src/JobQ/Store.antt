-- ===== src/JobQ/Store.antt =====
-- jobq/src/internal/storage: the methods of the Store, each a few SQL statements.
pub mod Claim
pub mod Finish
pub mod Lease
pub mod Admin
