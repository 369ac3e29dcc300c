-- ===== src/Storage.antt =====
-- src/storage/mod.rs: the key-value store over a concurrent map and a clock.
pub mod Map
pub mod Ops
pub mod View
pub mod Reads
pub mod Writes
pub mod Counters
mod Tests
mod SectionTests
pub mod Spec
pub mod Refine
pub mod Sections
pub mod Interference
pub mod Bounds
pub mod Ranges
