-- ===== src/Children.antt =====
-- 26-process-watch/multi_SIGCHLD.c: a process that starts children and waits for SIGCHLD until all of
-- them are dead, as steps of the process and of its children. The calls that it checks do not fail,
-- no other signal arrives, and what is printed is left out.
pub mod Safety
pub mod Progress
mod Tests
use my_linux_programming_int.Prelude.{ℕ, zero, suc, ◌-◌, ◌+◌, ◌<◌, ◌≡◌, Bool, true, false}

-- Where the process stands.
pub data Main : Type 0 where
  starting : (left : ℕ) → Main  -- before the calls of fork() for `left` more children, SIGCHLD blocked
  checking : Main  -- `while (numLiveChildren > 0)`, SIGCHLD blocked
  suspended : Main  -- in sigsuspend(), SIGCHLD not blocked
  reaping : Main  -- in the loop of `sigchldHandler`, SIGCHLD blocked
  finished : Main

pub record System : Type 0 where
  pub live : ℕ  -- children that run
  pub zombies : ℕ  -- children that have ended and are not yet waited for
  pub pending : Bool  -- a SIGCHLD is pending; more than one does not count
  pub num_live_children : ℕ
  pub sig_cnt : ℕ
  pub main : Main

pub data Step : System → System → Type 0 where
  start :
      {l z v c n : ℕ} {p : Bool}
      → Step
          (record {
            live = l;
            zombies = z;
            pending = p;
            num_live_children = v;
            sig_cnt = c;
            main = starting (suc n);
          })
          (record {
            live = suc l;
            zombies = z;
            pending = p;
            num_live_children = v;
            sig_cnt = c;
            main = starting n;
          })
  started :
      {l z v c : ℕ} {p : Bool}
      → Step
          (record {
            live = l;
            zombies = z;
            pending = p;
            num_live_children = v;
            sig_cnt = c;
            main = starting 0;
          })
          (record {
            live = l;
            zombies = z;
            pending = p;
            num_live_children = v;
            sig_cnt = c;
            main = checking;
          })
  -- a child ends, at any time
  die :
      {l z v c : ℕ} {p : Bool} {m : Main}
      → Step
          (record {
            live = suc l;
            zombies = z;
            pending = p;
            num_live_children = v;
            sig_cnt = c;
            main = m;
          })
          (record {
            live = l;
            zombies = suc z;
            pending = true;
            num_live_children = v;
            sig_cnt = c;
            main = m;
          })
  suspend :
      {l z v c : ℕ} {p : Bool}
      → 0 < v
      → Step
          (record {
            live = l;
            zombies = z;
            pending = p;
            num_live_children = v;
            sig_cnt = c;
            main = checking;
          })
          (record {
            live = l;
            zombies = z;
            pending = p;
            num_live_children = v;
            sig_cnt = c;
            main = suspended;
          })
  leave :
      {l z v c : ℕ} {p : Bool}
      → v ≡ 0
      → Step
          (record {
            live = l;
            zombies = z;
            pending = p;
            num_live_children = v;
            sig_cnt = c;
            main = checking;
          })
          (record {
            live = l;
            zombies = z;
            pending = p;
            num_live_children = v;
            sig_cnt = c;
            main = finished;
          })
  -- the signal is delivered, and the handler called
  deliver :
      {l z v c : ℕ}
      → Step
          (record {
            live = l;
            zombies = z;
            pending = true;
            num_live_children = v;
            sig_cnt = c;
            main = suspended;
          })
          (record {
            live = l;
            zombies = z;
            pending = false;
            num_live_children = v;
            sig_cnt = c;
            main = reaping;
          })
  -- `waitpid` returns the ID of a child
  reap :
      {l z v c : ℕ} {p : Bool}
      → Step
          (record {
            live = l;
            zombies = suc z;
            pending = p;
            num_live_children = v;
            sig_cnt = c;
            main = reaping;
          })
          (record {
            live = l;
            zombies = z;
            pending = p;
            num_live_children = v - 1;
            sig_cnt = c;
            main = reaping;
          })
  -- `waitpid` returns 0 or -1, the handler and sigsuspend() return
  return :
      {l v c : ℕ} {p : Bool}
      → Step
          (record {
            live = l;
            zombies = 0;
            pending = p;
            num_live_children = v;
            sig_cnt = c;
            main = reaping;
          })
          (record {
            live = l;
            zombies = 0;
            pending = p;
            num_live_children = v;
            sig_cnt = c + 1;
            main = checking;
          })

-- `children` arguments on the command line
abbrev pub init : (children : ℕ) → System
init children = record {
  live = 0;
  zombies = 0;
  pending = false;
  num_live_children = children;
  sig_cnt = 0;
  main = starting children;
}

pub data Reach (children : ℕ) : System → Type 0 where
  begin : Reach children (init children)
  then : {s t : System} → Reach children s → Step s t → Reach children t
