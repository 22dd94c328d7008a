-- ===== src/Threads/Prod.antt =====
-- 30-thread-sync/prod_condvar.c: producers, and a consumer that waits on a condition variable.
pub mod Invariant
pub mod Live
pub mod Steps
