-- ===== src/PidFile.antt =====
-- lib/create_pid_file.c, on lib/region_locking.c: a file that says which process runs.
pub mod Regions
pub mod Exclusive
mod Tests
use my_linux_programming_int.Prelude.{
  ℕ, ◌+◌, ◌%◌, Bool, true, false, ◌||◌, Option, none, some, ◌++◌, ◌==◌, if◌then◌else◌, length, ℤ,
  pos, Text, codes,
}
use my_linux_programming_int.Sys.{Call, Proc, eagain, eacces}
use my_linux_programming_int.Clib.Decimal.{show_nat}
use my_linux_programming_int.Clib.Strings.{snprintf}
use my_linux_programming_int.GetNum.{has_flag}
use my_linux_programming_int.Program.{
  Prog, value, Result, err_exit, fatal, pure, stop, ◌>>=◌, ◌>>◌, attempt, need, of_act,
}
use my_linux_programming_int.PidFile.Regions.{LockApi, lock_region, f_wrlck, seek_set}

pub record PidApi (K : Type 0) : Type 0 where
  pub locks : LockApi K
  pub open_pid : (path : Text) → Call K ℕ  -- O_RDWR | O_CREAT, rw-------
  pub getfd : (fd : ℕ) → Call K ℕ  -- fcntl(fd, F_GETFD)
  pub setfd : (fd flags : ℕ) → Call K (Unit {0})  -- fcntl(fd, F_SETFD, flags)
  pub ftruncate : (fd length : ℕ) → Call K (Unit {0})
  pub write : (fd : ℕ) → Text → Call K ℕ
  pub getpid : K → ℕ

abbrev pub cpf_cloexec : ℕ
cpf_cloexec = 1

-- `flags | FD_CLOEXEC`
abbrev pub with_cloexec : ℕ → ℕ
with_cloexec flags = if flags % 2 == 1 then flags else flags + 1

abbrev pub buf_size : ℕ
buf_size = 100

-- `snprintf(buf, BUF_SIZE, "%ld\n", (long) getpid())`
abbrev pub pid_line : ℕ → Text
pid_line pid = snprintf buf_size (show_nat pid ++ codes "\n")

abbrev running : (prog_name pid_file : Text) → Text
running prog_name pid_file =
    codes "PID file '"
    ++ (pid_file
        ++ (codes "' is locked; probably '" ++ (prog_name ++ codes "' is already running")))

module _ {K : Type 0} (os : PidApi K) where
  pub set_cloexec : (pid_file : Text) (fd : ℕ) → Prog K (Unit {0})
  set_cloexec pid_file fd = do
    flags ← need (os.getfd fd) (err_exit (codes "Could not get flags for PID file " ++ pid_file))
    need (os.setfd fd (with_cloexec flags))
        (err_exit (codes "Could not set flags for PID file " ++ pid_file))

  -- the diagnosis of a lock that could not be placed
  pub not_locked : {A : Type 0} (prog_name pid_file : Text) → Prog K A
  not_locked prog_name pid_file p =
      if p.errno == eagain || p.errno == eacces
      then stop (fatal (running prog_name pid_file)) p
      else stop (err_exit (codes "Unable to lock PID file '" ++ (pid_file ++ codes "'"))) p

  -- with the lock, and with the text for the file
  pub write_pid_as : (pid_file : Text) (fd : ℕ) (buf : Text) → Prog K ℕ
  write_pid_as pid_file fd buf = do
    need (os.ftruncate fd 0)
        (err_exit (codes "Could not truncate PID file '" ++ (pid_file ++ codes "'")))
    written ←
        need (os.write fd buf) (fatal (codes "Writing to PID file '" ++ (pid_file ++ codes "'")))
    let short = fatal (codes "Writing to PID file '" ++ (pid_file ++ codes "'"))
    (if written == length buf then pure fd else stop short)

  pub write_pid : (pid_file : Text) (fd : ℕ) → Prog K ℕ
  write_pid pid_file fd p = write_pid_as pid_file fd (pid_line (os.getpid p.kernel)) p

  pub after_lock : (prog_name pid_file : Text) (fd : ℕ) → Option (Unit {0}) → Prog K ℕ
  after_lock prog_name pid_file fd none = not_locked prog_name pid_file
  after_lock prog_name pid_file fd (some u) = write_pid pid_file fd

  pub lock_and_write : (prog_name pid_file : Text) (fd : ℕ) → Prog K ℕ
  lock_and_write prog_name pid_file fd = do
    locked ← of_act (lock_region os.locks fd f_wrlck seek_set (pos 0) (pos 0))
    after_lock prog_name pid_file fd locked

  pub create_pid_file : (prog_name pid_file : Text) (flags : ℕ) → Prog K ℕ
  create_pid_file prog_name pid_file flags = do
    fd ← need (os.open_pid pid_file) (err_exit (codes "Could not open PID file " ++ pid_file))
    (if has_flag flags cpf_cloexec then set_cloexec pid_file fd else pure tt)
    lock_and_write prog_name pid_file fd
