-- ===== src/JobQ/Examples.antt =====
-- The job queue's theorems at concrete tables, requests and settings.
pub mod Data
pub mod Stored
pub mod Served
