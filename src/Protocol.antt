-- ===== src/Protocol.antt =====
-- src/protocol/mod.rs: RESP frames, their decoder over a byte stream, and their encoder.
pub mod Frame
pub mod Reader
pub mod Decode
pub mod Encode
pub mod Lines
pub mod Encodable
pub mod RoundTrip
pub mod Consume
pub mod Progress
pub mod Extend
pub mod Truncate
pub mod Split
mod Tests
pub mod Refuse
