-- ===== src/Clib.antt =====
-- The part of the C standard library that the programs compute with.
pub mod Decimal
pub mod Digits
pub mod RoundTrip
pub mod Strings
pub mod Strtol
