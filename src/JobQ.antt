-- ===== src/JobQ.antt =====
-- jobq/src: the durable job queue, its server, its store and its Go SDK.
pub mod Job
pub mod Table
pub mod Config
pub mod Backoff
pub mod Store
pub mod Validator
pub mod Http
pub mod Sdk
pub mod Statement
pub mod Proofs
pub mod Examples
