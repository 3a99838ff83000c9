-- ===== src/Websocket.antt =====
-- websocket/: the connected users, the running file transfers, and the socket's own requests.
pub mod ConnectionManager
pub mod FileRelay
pub mod Handler
mod Tests
