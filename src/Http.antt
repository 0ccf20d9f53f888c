-- ===== src/Http.antt =====
-- app/core/http: the middleware stack and the error envelope.
pub mod Errors
pub mod Asgi
pub mod Idempotency
mod Tests
pub mod IdempotencyStore
pub mod Replay
pub mod BodyLimit
pub mod Concurrency
