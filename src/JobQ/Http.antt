-- ===== src/JobQ/Http.antt =====
-- jobq/src/internal/httpapi: the requests, their validation and the handlers.
pub mod Requests
pub mod Handlers
pub mod Validation
