-- ===== src/Command.antt =====
-- src/command/mod.rs: commands out of frames, the state of a connection, and the handlers.
pub mod Types
pub mod Parse
pub mod Pattern
pub mod Config
pub mod Handlers
pub mod Client
pub mod Execute
pub mod Replies
mod Tests
pub mod Session
pub mod Words
pub mod Effects
