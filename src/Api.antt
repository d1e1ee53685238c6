-- ===== src/Api.antt =====
-- What stands between the requests and the use cases: backend/dto, backend/middleware and the error
-- messages of backend/websocket.
pub mod Errors
pub mod RateLimit
pub mod Guard
