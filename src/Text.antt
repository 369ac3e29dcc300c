-- ===== src/Text.antt =====
-- Text operations of the standard library that the program calls on byte strings.
pub mod Utf8
pub mod Ascii
pub mod Decimal
pub mod Trim
