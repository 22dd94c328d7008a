-- ===== src/Threads/Join.antt =====
-- 30-thread-sync/thread_multijoin.c: `main` joins its threads as they terminate. The arguments have
-- been read, and the calls on the threads, the mutex and the condition variable do not fail.
pub mod Weights
pub mod Safety
pub mod Live
use my_linux_programming_int.Prelude.{
  ℕ, zero, suc, ◌+◌, ◌-◌, ◌≡◌, ◌≢◌, ◌<◌, Bool, true, false, List, [], ◌∷◌, ◌++◌, length,
}

-- `enum tstate`
pub data Tstate : Type 0 where
  ts_alive ts_terminated ts_joined : Tstate

-- Where a thread stands.
pub data Pc : Type 0 where
  asleep locked counted marked unlocked returned : Pc

-- asleep: before it has the mutex; counted: behind `numUnjoined++`; marked: behind the change of its
-- state; unlocked: before `pthread_cond_signal`

-- `thread[idx]`, and the thread itself
pub record Thread : Type 0 where
  pub pc : Pc
  pub state : Tstate

-- Where `main` stands.
pub data Main : Type 0 where
  creating : (n : ℕ) → Main  -- `n` threads are still to be created
  top : Main  -- `while (numLive > 0)`
  test : Main  -- `while (numUnjoined == 0)`, with the mutex
  waiting : Main  -- asleep in `pthread_cond_wait`
  woken : Main  -- about to take the mutex again
  scan : (idx : ℕ) → Main  -- in the `for` loop, with the mutex
  exited : Main

pub record System : Type 0 where
  pub num_live : ℕ
  pub num_unjoined : ℕ
  pub mtx : Bool  -- held by some thread
  pub main : Main
  pub threads : List Thread  -- those created, in the order of `idx`

-- Moves of a thread: `numUnjoined` and the mutex, and the thread, before and after.
pub data Run
    : (num_unjoined : ℕ) (mtx : Bool)
      → Thread
      → (num_unjoined' : ℕ) (mtx' : Bool) → Thread
      → Type 0 where
  lock :
      {u : ℕ} {m : Bool} {s : Tstate}
      → m ≡ false
      → Run u m (record { pc = asleep; state = s }) u true (record { pc = locked; state = s })
  count :
      {u : ℕ} {m : Bool} {s : Tstate}
      → Run u m (record { pc = locked; state = s }) (u + 1) m (record { pc = counted; state = s })
  mark :
      {u : ℕ} {m : Bool} {s : Tstate}
      → Run u m
          (record { pc = counted; state = s })
          u
          m
          (record { pc = marked; state = ts_terminated })
  unlock :
      {u : ℕ} {m : Bool} {s : Tstate}
      → Run u m (record { pc = marked; state = s }) u false (record { pc = unlocked; state = s })

-- `pthread_cond_signal` wakes `main` if it is asleep, and is lost otherwise.
abbrev pub signal : Main → Main
signal waiting = woken
signal (creating n) = creating n
signal top = top
signal test = test
signal woken = woken
signal (scan idx) = scan idx
signal exited = exited

-- A step of the program. A `main` that waits moves only by the signal of a thread.
pub data Step : System → System → Type 0 where
  create :
      {v u n : ℕ} {m : Bool} {ts : List Thread}
      → Step
          (record {
            num_live = v;
            num_unjoined = u;
            mtx = m;
            main = creating (suc n);
            threads = ts;
          })
          (record {
            num_live = v;
            num_unjoined = u;
            mtx = m;
            main = creating n;
            threads = ts ++ record { pc = asleep; state = ts_alive } ∷ [];
          })
  created :
      {v u : ℕ} {m : Bool} {ts : List Thread}
      → Step
          (record { num_live = v; num_unjoined = u; mtx = m; main = creating 0; threads = ts })
          (record { num_live = v; num_unjoined = u; mtx = m; main = top; threads = ts })
  enter :
      {v u : ℕ} {m : Bool} {ts : List Thread}
      → 0 < v
      → m ≡ false
      → Step
          (record { num_live = v; num_unjoined = u; mtx = m; main = top; threads = ts })
          (record { num_live = v; num_unjoined = u; mtx = true; main = test; threads = ts })
  leave :
      {v u : ℕ} {m : Bool} {ts : List Thread}
      → v ≡ 0
      → Step
          (record { num_live = v; num_unjoined = u; mtx = m; main = top; threads = ts })
          (record { num_live = v; num_unjoined = u; mtx = m; main = exited; threads = ts })
  wait :
      {v u : ℕ} {m : Bool} {ts : List Thread}
      → u ≡ 0
      → Step
          (record { num_live = v; num_unjoined = u; mtx = m; main = test; threads = ts })
          (record { num_live = v; num_unjoined = u; mtx = false; main = waiting; threads = ts })
  relock :
      {v u : ℕ} {m : Bool} {ts : List Thread}
      → m ≡ false
      → Step
          (record { num_live = v; num_unjoined = u; mtx = m; main = woken; threads = ts })
          (record { num_live = v; num_unjoined = u; mtx = true; main = test; threads = ts })
  found :
      {v u : ℕ} {m : Bool} {ts : List Thread}
      → 0 < u
      → Step
          (record { num_live = v; num_unjoined = u; mtx = m; main = test; threads = ts })
          (record { num_live = v; num_unjoined = u; mtx = m; main = scan 0; threads = ts })
  skip :
      {v u : ℕ} {m : Bool} (t : Thread) (before later : List Thread)
      → t.state ≢ ts_terminated
      → Step
          (record {
            num_live = v;
            num_unjoined = u;
            mtx = m;
            main = scan (length before);
            threads = before ++ t ∷ later;
          })
          (record {
            num_live = v;
            num_unjoined = u;
            mtx = m;
            main = scan (length before + 1);
            threads = before ++ t ∷ later;
          })
  join :
      {v u : ℕ} {m : Bool} (before later : List Thread)
      → Step
          (record {
            num_live = v;
            num_unjoined = u;
            mtx = m;
            main = scan (length before);
            threads = before ++ record { pc = returned; state = ts_terminated } ∷ later;
          })
          (record {
            num_live = v - 1;
            num_unjoined = u - 1;
            mtx = m;
            main = scan (length before + 1);
            threads = before ++ record { pc = returned; state = ts_joined } ∷ later;
          })
  scanned :
      {v u idx : ℕ} {m : Bool} {ts : List Thread}
      → idx ≡ length ts
      → Step
          (record { num_live = v; num_unjoined = u; mtx = m; main = scan idx; threads = ts })
          (record { num_live = v; num_unjoined = u; mtx = false; main = top; threads = ts })
  by_thread :
      {v u u' : ℕ} {m m' : Bool} {x : Main} {t t' : Thread} (before later : List Thread)
      → Run u m t u' m' t'
      → Step
          (record {
            num_live = v;
            num_unjoined = u;
            mtx = m;
            main = x;
            threads = before ++ t ∷ later;
          })
          (record {
            num_live = v;
            num_unjoined = u';
            mtx = m';
            main = x;
            threads = before ++ t' ∷ later;
          })
  signalling :
      {v u : ℕ} {m : Bool} {x : Main} (s : Tstate) (before later : List Thread)
      → Step
          (record {
            num_live = v;
            num_unjoined = u;
            mtx = m;
            main = x;
            threads = before ++ record { pc = unlocked; state = s } ∷ later;
          })
          (record {
            num_live = v;
            num_unjoined = u;
            mtx = m;
            main = signal x;
            threads = before ++ record { pc = returned; state = s } ∷ later;
          })

-- `pthread_cond_wait` may return with no signal, which is no step that the program can count on.
pub data Spurious : System → System → Type 0 where
  wake :
      {v u : ℕ} {m : Bool} {ts : List Thread}
      → Spurious
          (record { num_live = v; num_unjoined = u; mtx = m; main = waiting; threads = ts })
          (record { num_live = v; num_unjoined = u; mtx = m; main = woken; threads = ts })

-- with `n` arguments, before any thread is created
abbrev pub init : (n : ℕ) → System
init n = record { num_live = n; num_unjoined = 0; mtx = false; main = creating n; threads = [] }

pub data Reach (n : ℕ) : System → Type 0 where
  here : Reach n (init n)
  next : {s t : System} → Reach n s → Step s t → Reach n t
  wake_up : {s t : System} → Reach n s → Spurious s t → Reach n t
