-- ===== src/Sockets.antt =====
-- The socket helpers of lib/, by the descriptors that they leave open.
pub mod Api
pub mod Inet
pub mod Pty
pub mod PtyFork
pub mod Unix
mod Tests
