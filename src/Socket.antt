-- ===== src/Socket.antt =====
-- backend/websocket: the connections of the users.
pub mod Hub
pub mod Handler
