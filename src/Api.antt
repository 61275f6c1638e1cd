-- ===== src/Api.antt =====
-- internal/api: the HTTP server.
pub mod Auth
pub mod Events
pub mod Guard
pub mod Hub
pub mod Limiter
pub mod Rate
pub mod Server
pub mod Stream
pub mod Token
