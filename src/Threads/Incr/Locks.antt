-- ===== src/Threads/Incr/Locks.antt =====
-- The locks of the three programs: a mutex with an owner, a semaphore that starts at 1, a spinlock.
use my_linux_programming_int.Prelude.{ℕ, zero, suc, ◌-◌, ◌≤◌, ◌≡◌, refl, Option, none, some, arith}
use my_linux_programming_int.Threads.Incr.Locked.{Who, Lock}

-- `pthread_mutex_lock` waits until there is no owner.
pub data MutexLock (w : Who) : Option Who → Option Who → Type 0 where
  lock : {o : Option Who} → o ≡ none → MutexLock w o (some w)

pub data MutexUnlock (w : Who) : Option Who → Option Who → Type 0 where
  unlock : {o : Option Who} → MutexUnlock w o none

abbrev pub owners : Option Who → ℕ
owners none = 0
owners (some w) = 1

pub acquired_mutex :
    {w : Who} {g h : Option Who} → MutexLock w g h → (owners g ≡ 0) × (owners h ≡ 1)
acquired_mutex (lock e) = (rw e refl, refl)

pub released_mutex : {w : Who} {g h : Option Who} → MutexUnlock w g h → owners h ≡ 0
released_mutex unlock = refl

pub free_mutex : (w : Who) (g : Option Who) → owners g ≡ 0 → (h : Option Who) × MutexLock w g h
free_mutex w none e = (some w, lock refl)
free_mutex w (some v) e = absurd (omega arith)

-- 30-thread-sync/thread_incr_mutex.c; a spinlock differs in how it waits, not in its states.
abbrev pub mutex : Lock
mutex = record {
  State = Option Who;
  start = none;
  Acquire = MutexLock;
  Release = MutexUnlock;
  inside = owners;
  IsOk = λ g. Unit;
  start_free = refl;
  start_ok = tt;
  acquire_lem = λ k a. let (free, taken) = acquired_mutex a in (free, taken, tt);
  release_lem = λ k e r. (released_mutex r, tt);
  can_acquire = free_mutex;
  can_release = λ w g. (none, unlock);
}

-- `sem_wait` waits until the value is positive.
pub data SemWait (w : Who) : ℕ → ℕ → Type 0 where
  wait : {v u : ℕ} → v ≡ suc u → SemWait w v u

pub data SemPost (w : Who) : ℕ → ℕ → Type 0 where
  post : {v : ℕ} → SemPost w v (suc v)

pub waited : {w : Who} {v u : ℕ} → v ≤ 1 → SemWait w v u → (1 - v ≡ 0) × (1 - u ≡ 1) × (u ≤ 1)
waited k (wait e) = omega arith

pub posted : {w : Who} {v u : ℕ} → 1 - v ≡ 1 → SemPost w v u → (1 - u ≡ 0) × (u ≤ 1)
posted e post = omega arith

pub free_sem : (w : Who) (v : ℕ) → 1 - v ≡ 0 → (u : ℕ) × SemWait w v u
free_sem w zero e = absurd (omega arith)
free_sem w (suc u) e = (u, wait refl)

-- 53-posix-semaphore/thread_incr_psem.c: `sem_init(&sem, 0, 1)`; what is missing from 1 is inside.
abbrev pub semaphore : Lock
semaphore = record {
  State = ℕ;
  start = 1;
  Acquire = SemWait;
  Release = SemPost;
  inside = λ v. 1 - v;
  IsOk = λ v. v ≤ 1;
  start_free = omega arith;
  start_ok = omega arith;
  acquire_lem = λ k a. waited k a;
  release_lem = λ k e r. posted e r;
  can_acquire = free_sem;
  can_release = λ w v. (suc v, post);
}
