-- ===== src/Server.antt =====
-- internal/server: the session of a connection, over a store.
mod Witnesses
pub mod BatchGet
pub mod Handlers
pub mod Store
pub mod Session
pub mod PutStream
