-- ===== src/Server.antt =====
-- src/server/mod.rs: the configuration of the server and the loop that serves a connection.
pub mod Config
pub mod Connection
pub mod Settings
pub mod Serve
mod Tests
mod PoolTests
pub mod Ends
pub mod Pipeline
pub mod Words
pub mod Pool
pub mod Liveness
pub mod Run
