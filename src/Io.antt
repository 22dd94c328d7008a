-- ===== src/Io.antt =====
-- Transfers of bytes through file descriptors.
pub mod Laws
pub mod Copy
pub mod Pump
pub mod Rdwrn
pub mod ReadLine
pub mod Xfr
mod Tests
