-- ===== src/Threads/Incr.antt =====
-- Two threads that increment `glob`: 30-thread-sync/thread_incr_mutex.c with a mutex,
-- 53-posix-semaphore/thread_incr_psem.c with a semaphore, 30-experimental/thread_incr_spinlock.c with
-- a spinlock, and 30-thread-sync/thread_incr.c with nothing. Lock and unlock calls do not fail.
pub mod Locked
pub mod Locks
pub mod Progress
pub mod Racy
pub mod Safety
