-- ===== src/Daemon.antt =====
-- lib/become_daemon.c: a process of its own, away from terminals.
pub mod View
pub mod Steps
pub mod Detached
mod Tests
use my_linux_programming_int.Prelude.{
  ℕ, zero, suc, Bool, true, false, Option, none, some, ◌==◌, if◌then◌else◌, Text, codes,
}
use my_linux_programming_int.Sys.{Call, Proc}
use my_linux_programming_int.GetNum.{has_flag}
use my_linux_programming_int.Program.{Prog, value, success, pure, stop, ◌>>=◌, ◌>>◌, attempt}

pub record DaemonApi (K : Type 0) : Type 0 where
  pub fork : Call K ℕ  -- 0 in the child
  pub setsid : Call K (Unit {0})
  pub umask : (mask : ℕ) → K → K
  pub chdir : (path : Text) → Call K (Unit {0})
  pub open_max : Option ℕ  -- sysconf(_SC_OPEN_MAX), `none` for -1
  pub close : (fd : ℕ) → Call K (Unit {0})
  pub open_rdwr : (path : Text) → Call K ℕ
  pub dup2 : (old new : ℕ) → Call K ℕ

abbrev pub bd_no_chdir : ℕ
bd_no_chdir = 1

abbrev pub bd_no_close_files : ℕ
bd_no_close_files = 2

abbrev pub bd_no_reopen_std_fds : ℕ
bd_no_reopen_std_fds = 4

abbrev pub bd_no_umask0 : ℕ
bd_no_umask0 = 8

abbrev pub bd_max_close : ℕ
bd_max_close = 8192

abbrev pub max_fd : Option ℕ → ℕ
max_fd none = bd_max_close
max_fd (some n) = n

abbrev pub dev_null : Text
dev_null = codes "/dev/null"

-- `fd == n`, with `none` for -1
abbrev pub is_fd : Option ℕ → ℕ → Bool
is_fd none n = false
is_fd (some fd) n = fd == n

-- The result of the code is `some tt` for 0 and `none` for -1.
module _ {K : Type 0} (os : DaemonApi K) where
  -- `return -1` at a failed call, and the code behind a call that succeeded
  abbrev pub unless_failed :
      Option (Unit {0}) → Prog K (Option (Unit {0})) → Prog K (Option (Unit {0}))
  unless_failed none rest = pure none
  unless_failed (some u) rest = rest

  abbrev pub in_child : Option ℕ → Prog K (Option (Unit {0}))
  in_child none = pure none
  in_child (some zero) = pure (some tt)
  in_child (some (suc pid)) = stop success

  -- The child goes on, and the parent ends.
  pub fork_off : Prog K (Option (Unit {0}))
  fork_off = do pid ← attempt os.fork; in_child pid

  pub clear_umask : (flags : ℕ) → Prog K (Unit {0})
  clear_umask flags p =
      if has_flag flags bd_no_umask0
      then (value tt, p)
      else (value tt, record p { kernel = os.umask 0 p.kernel })

  pub change_dir : (flags : ℕ) → Prog K (Unit {0})
  change_dir flags =
      if has_flag flags bd_no_chdir then pure tt else attempt (os.chdir (codes "/")) >> pure tt

  pub close_from : (fd count : ℕ) → Prog K (Unit {0})
  close_from fd zero = pure tt
  close_from fd (suc count) = do attempt (os.close fd); close_from (suc fd) count

  pub close_files : (flags : ℕ) → Prog K (Unit {0})
  close_files flags =
      if has_flag flags bd_no_close_files then pure tt else close_from 0 (max_fd os.open_max)

  pub dup_null : Prog K (Option (Unit {0}))
  dup_null = do
    out ← attempt (os.dup2 0 1)
    (if is_fd out 1
        then (do err ← attempt (os.dup2 0 2); (if is_fd err 2 then pure (some tt) else pure none))
        else pure none)

  pub reopen_null : Prog K (Option (Unit {0}))
  reopen_null = do
    attempt (os.close 0)
    fd ← attempt (os.open_rdwr dev_null)
    (if is_fd fd 0 then dup_null else pure none)

  pub reopen : (flags : ℕ) → Prog K (Option (Unit {0}))
  reopen flags = if has_flag flags bd_no_reopen_std_fds then pure (some tt) else reopen_null

  -- from `umask` on
  pub tidy : (flags : ℕ) → Prog K (Option (Unit {0}))
  tidy flags = do clear_umask flags; change_dir flags; close_files flags; reopen flags

  pub second_fork : (flags : ℕ) → Prog K (Option (Unit {0}))
  second_fork flags = do child ← fork_off; unless_failed child (tidy flags)

  pub new_session : (flags : ℕ) → Prog K (Option (Unit {0}))
  new_session flags = do session ← attempt os.setsid; unless_failed session (second_fork flags)

  pub become_daemon : (flags : ℕ) → Prog K (Option (Unit {0}))
  become_daemon flags = do child ← fork_off; unless_failed child (new_session flags)
