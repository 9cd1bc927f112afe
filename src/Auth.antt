-- ===== src/Auth.antt =====
-- Who may do what: src/lib/auth, src/lib/sharding and the channels of src/lib/websocket.
pub mod Guards
pub mod Channels
