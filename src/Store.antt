-- ===== src/Store.antt =====
-- What the services read and write: a region's database, the transactions on it, the Redis
-- presence sets, the WebSocket messages sent, and the services that the program calls.
pub mod Db
pub mod Tx
pub mod World
pub mod Env
pub mod Action
