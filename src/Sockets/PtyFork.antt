-- ===== src/Sockets/PtyFork.antt =====
-- lib/pty_fork.c: a child process on a pseudoterminal.
pub mod Table
pub mod Child
pub mod Descriptors
mod Tests
use my_linux_programming_int.Prelude.{
  ℕ, zero, suc, Bool, Option, none, some, ◌==◌, ltb, if◌then◌else◌, length, Text, codes, c_string,
}
use my_linux_programming_int.Sys.{Call, Proc, sys, eoverflow}
use my_linux_programming_int.Clib.Strings.{strncpy}
use my_linux_programming_int.Program.{
  Prog, value, pure, stop, err_exit_now, ◌>>=◌, ◌>>◌, attempt, need, of_act,
}
use my_linux_programming_int.Sockets.Api.{close_keeping_errno}
use my_linux_programming_int.Sockets.Pty.{PtyApi, pty_master_open}

pub record ForkApi (K Termios Winsize : Type 0) : Type 0 where
  pub pty : PtyApi K
  pub fork : Call K ℕ  -- 0 in the child
  pub setsid : Call K (Unit {0})
  pub open_slave : (name : Text) → Call K ℕ  -- O_RDWR
  pub set_ctty : (fd : ℕ) → Call K (Unit {0})  -- ioctl(fd, TIOCSCTTY, 0)
  pub tcsetattr : (fd : ℕ) → Termios → Call K (Unit {0})  -- TCSANOW
  pub set_size : (fd : ℕ) → Winsize → Call K (Unit {0})  -- ioctl(fd, TIOCSWINSZ, ...)
  pub dup2 : (old new : ℕ) → Call K ℕ

abbrev pub max_sname : ℕ
max_sname = 1000

-- the result (`none` for -1), `*masterFd`, and the buffer `slaveName` where the caller has one
pub record Forked : Type 0 where
  pub child : Option ℕ
  pub master_fd : ℕ
  pub slave_name : Option Text

-- the caller's `*masterFd`, buffer and its size, and the settings of the terminal
pub record Request (Termios Winsize : Type 0) : Type 0 where
  pub master_fd : ℕ
  pub slave_name : Option Text
  pub sn_len : ℕ
  pub slave_termios : Option Termios
  pub slave_ws : Option Winsize

module _ {K Termios Winsize : Type 0} (os : ForkApi K Termios Winsize) where
  -- `if (dup2(slaveFd, new) != new) err_exit(...)`
  pub dup_to : (slave_fd new : ℕ) (label : Text) → Prog K (Unit {0})
  dup_to slave_fd new label = do
    got ← need (os.dup2 slave_fd new) (err_exit_now label)
    (if got == new then pure tt else stop (err_exit_now label))

  -- an optional setting
  abbrev pub when_given : {A : Type 0} → Option A → (A → Prog K (Unit {0})) → Prog K (Unit {0})
  when_given none set = pure tt
  when_given (some a) set = set a

  pub standard_streams : (slave_fd : ℕ) → Prog K (Unit {0})
  standard_streams slave_fd = do
    dup_to slave_fd 0 (codes "ptyFork:dup2-STDIN_FILENO")
    dup_to slave_fd 1 (codes "ptyFork:dup2-STDOUT_FILENO")
    dup_to slave_fd 2 (codes "ptyFork:dup2-STDERR_FILENO")
    (if ltb 2 slave_fd then attempt (os.pty.close slave_fd) >> pure tt else pure tt)

  pub child_of : (req : Request Termios Winsize) (mfd : ℕ) (slname : Text) → Prog K (Unit {0})
  child_of req mfd slname = do
    need os.setsid (err_exit_now (codes "ptyFork:setsid"))
    attempt (os.pty.close mfd)
    slave_fd ← need (os.open_slave (c_string slname)) (err_exit_now (codes "ptyFork:open-slave"))
    need (os.set_ctty slave_fd) (err_exit_now (codes "ptyFork:ioctl-TIOCSCTTY"))
    when_given req.slave_termios
        (λ t. need (os.tcsetattr slave_fd t) (err_exit_now (codes "ptyFork:tcsetattr")))
    when_given req.slave_ws
        (λ ws. need (os.set_size slave_fd ws) (err_exit_now (codes "ptyFork:ioctl-TIOCSWINSZ")))
    standard_streams slave_fd

  -- behind fork(), in both processes
  pub forked :
      (req : Request Termios Winsize) (slave_name : Option Text) (mfd : ℕ) (slname : Text)
      → Option ℕ
      → Prog K Forked
  forked req slave_name mfd slname none = do
    of_act (close_keeping_errno {A = Unit {0}} (os.pty.close mfd))
    pure (record { child = none; master_fd = req.master_fd; slave_name = slave_name })
  forked req slave_name mfd slname (some zero) = do
    child_of req mfd slname
    pure (record { child = some 0; master_fd = req.master_fd; slave_name = slave_name })
  forked req slave_name mfd slname (some (suc pid)) =
      pure (record { child = some (suc pid); master_fd = mfd; slave_name = slave_name })

  pub fork_child :
      (req : Request Termios Winsize) (slave_name : Option Text) (mfd : ℕ) (slname : Text)
      → Prog K Forked
  fork_child req slave_name mfd slname = do
    child ← attempt os.fork
    forked req slave_name mfd slname child

  -- `slaveName` was too small
  pub too_small : (req : Request Termios Winsize) (mfd : ℕ) → Prog K Forked
  too_small req mfd p =
      let p1 = (sys (os.pty.close mfd) p).1 in
      pure (record { child = none; master_fd = req.master_fd; slave_name = req.slave_name })
        (record p1 { errno = eoverflow })

  -- with the caller's buffer
  pub offer :
      (req : Request Termios Winsize) (mfd : ℕ) (slname : Text) → Option Text → Prog K Forked
  offer req mfd slname none = fork_child req none mfd slname
  offer req mfd slname (some buf) =
      if ltb (length (c_string slname)) req.sn_len
      then fork_child req (some (strncpy buf (c_string slname) req.sn_len)) mfd slname
      else too_small req mfd

  -- with the result of `ptyMasterOpen` and the name that it stored
  pub with_master : (req : Request Termios Winsize) → Option ℕ × Text → Prog K Forked
  with_master req (none, slname) =
      pure (record { child = none; master_fd = req.master_fd; slave_name = req.slave_name })
  with_master req (some mfd, slname) = offer req mfd slname req.slave_name

  -- `slname` is what stands in the array on the stack
  pub pty_fork : (slname : Text) (req : Request Termios Winsize) → Prog K Forked
  pty_fork slname req = do
    opened ← of_act (pty_master_open os.pty slname max_sname)
    with_master req opened
