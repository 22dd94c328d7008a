-- ===== src/Threads.antt =====
-- Programs of several threads, as interleavings of steps.
pub mod Incr
pub mod Poll
pub mod Join
pub mod Prod
pub mod Sum
mod Tests
