-- ===== src/JobQ/Sdk.antt =====
-- jobq/src/sdk/go: the client and the worker of the Go SDK.
pub mod Client
pub mod Worker
pub mod Contract
pub mod Life
