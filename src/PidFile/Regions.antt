-- ===== src/PidFile/Regions.antt =====
-- lib/region_locking.c: locks on regions of files.
use my_linux_programming_int.Prelude.{ℕ, Option, none, some, ◌==◌, if◌then◌else◌, ℤ, pos, negsuc}
use mathlib.Core.Option
use my_linux_programming_int.Sys.{Call, sys, Act}

-- `struct flock`
pub record Flock : Type 0 where
  pub l_type : ℕ
  pub l_whence : ℕ
  pub l_start : ℤ
  pub l_len : ℤ
  pub l_pid : ℕ

-- The values on Linux.
abbrev pub f_wrlck : ℕ
f_wrlck = 1

abbrev pub f_unlck : ℕ
f_unlck = 2

abbrev pub seek_set : ℕ
seek_set = 0

abbrev pub f_getlk : ℕ
f_getlk = 5

abbrev pub f_setlk : ℕ
f_setlk = 6

abbrev pub f_setlkw : ℕ
f_setlkw = 7

pub record LockApi (K : Type 0) : Type 0 where
  pub fcntl : (fd cmd : ℕ) → Flock → Call K Flock  -- the reply is `*fl` after the call
  pub stale : ℕ  -- what stands in `l_pid` on the stack

module _ {K : Type 0} (os : LockApi K) where
  -- `lockReg`; `none` is the result -1
  unfoldable pub lock_reg : (fd cmd type whence : ℕ) (start len : ℤ) → Act K (Option (Unit {0}))
  lock_reg fd cmd type whence start len p =
      let fl : Flock = record {
        l_type = type;
        l_whence = whence;
        l_start = start;
        l_len = len;
        l_pid = os.stale;
      } in
      let (r, p1) = sys (os.fcntl fd cmd fl) p in (Option.map (λ _. tt) r, p1)

  unfoldable pub lock_region : (fd type whence : ℕ) (start len : ℤ) → Act K (Option (Unit {0}))
  lock_region fd type whence start len = lock_reg fd f_setlk type whence start len

  pub lock_region_wait : (fd type whence : ℕ) (start len : ℤ) → Act K (Option (Unit {0}))
  lock_region_wait fd type whence start len = lock_reg fd f_setlkw type whence start len

  pub region_is_locked : (fd type whence : ℕ) (start len : ℤ) → Act K ℤ
  region_is_locked fd type whence start len p =
      let fl : Flock = record {
        l_type = type;
        l_whence = whence;
        l_start = start;
        l_len = len;
        l_pid = os.stale;
      } in
      let (r, p1) = sys (os.fcntl fd f_getlk fl) p in
      elim r [
        | none ↦ (negsuc 0, p1)
        | some after ↦ ((if after.l_type == f_unlck then pos 0 else pos after.l_pid), p1)
      ]
