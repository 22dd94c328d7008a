-- ===== src/Echo.antt =====
-- 60-socket-design/is_echo_sv.c: a server that has a child for each client, and the handler that
-- takes the dead children away. What goes to the system log is left out, and so is SIGPIPE, which kills
-- a child that writes to a connection that its client has closed.
pub mod Laws
pub mod Reaper
pub mod Rounds
mod Tests
use my_linux_programming_int.Prelude.{ℕ, zero, suc, false, Option, none, some, Text, codes}
use mathlib.Core.Option
use my_linux_programming_int.Sys.{Call, Proc, sys}
use my_linux_programming_int.Io.Pump.{End, eof, read_error, write_error, pump}
use my_linux_programming_int.Program.{
  Prog, success, failure, err_exit, pure, stop, ◌>>=◌, ◌>>◌, attempt, need, fueled, of_act,
}
use my_linux_programming_int.Sockets.Api.{Api}
use my_linux_programming_int.Sockets.Inet.{inet_listen}

pub record EchoApi (K : Type 0) : Type 0 where
  pub sockets : Api K
  pub sigaction : Call K (Unit {0})  -- of SIGCHLD, by the handler
  pub defer_accept : (fd : ℕ) → Call K (Unit {0})  -- setsockopt(fd, IPPROTO_TCP, TCP_DEFER_ACCEPT, ...)
  pub accept : (fd : ℕ) → Call K ℕ
  pub prompt : Call K (Unit {0})  -- stop("accept success") of lib/my.c, which waits for a key
  pub fork : Call K ℕ  -- 0 in the child
  pub waitpid : Call K ℕ  -- waitpid(-1, NULL, WNOHANG)
  pub read : (fd : ℕ) → ℕ → Call K Text
  pub write : (fd : ℕ) → Text → Call K ℕ

abbrev pub service : Text
service = codes "12345"

abbrev pub echo_buf_size : ℕ
echo_buf_size = 4096

module _ {K : Type 0} (os : EchoApi K) where
  -- the loop of `grimReaper`; `none` means that the fuel ran out
  pub reap : (fuel : ℕ) → Proc K → Option (Proc K)
  reap zero p = none
  reap (suc fuel) p =
      let (child, p1) = sys os.waitpid p in
      elim child [ none ↦ some p1 | some pid ↦ elim pid [ zero ↦ some p1 | suc n ↦ reap fuel p1 ] ]

  abbrev pub restore_errno : (saved : ℕ) → Proc K → Proc K
  restore_errno saved p = record p { errno = saved }

  pub grim_reaper : (fuel : ℕ) → Proc K → Option (Proc K)
  grim_reaper fuel p = Option.map (restore_errno p.errno) (reap fuel p)

  abbrev pub after_copy : End → Prog K (Unit {0})
  after_copy eof = pure tt
  after_copy read_error = stop failure
  after_copy write_error = stop failure

  pub handle_request : (fuel cfd : ℕ) → Prog K (Unit {0})
  handle_request fuel cfd = do
    e ← fueled (pump (os.read cfd) (os.write cfd) fuel echo_buf_size)
    after_copy e

  -- by the result of fork(), in both processes
  pub in_process : (fuel lfd cfd : ℕ) → Option ℕ → Prog K (Unit {0})
  in_process fuel lfd cfd none = do attempt (os.sockets.close cfd); pure tt
  in_process fuel lfd cfd (some zero) = do
    attempt (os.sockets.close lfd)
    handle_request fuel cfd
    stop success
  in_process fuel lfd cfd (some (suc pid)) = do attempt (os.sockets.close cfd); pure tt

  pub delegate : (fuel lfd : ℕ) → Option ℕ → Prog K (Unit {0})
  delegate fuel lfd none = stop failure
  delegate fuel lfd (some cfd) = do
    attempt os.prompt
    child ← attempt os.fork
    in_process fuel lfd cfd child

  -- one round of the `for (;;)` loop
  pub serve_client : (fuel lfd : ℕ) → Prog K (Unit {0})
  serve_client fuel lfd = do connection ← attempt (os.accept lfd); delegate fuel lfd connection

  -- `rounds` rounds
  pub serve : (rounds fuel lfd : ℕ) → Prog K (Unit {0})
  serve zero fuel lfd = pure tt
  serve (suc rounds) fuel lfd = do serve_client fuel lfd; serve rounds fuel lfd

  abbrev pub listening : (rounds fuel : ℕ) → Option ℕ × Option ℕ → Prog K (Unit {0})
  listening rounds fuel (none, len) = stop failure
  listening rounds fuel (some lfd, len) = do
    need (os.defer_accept lfd) (err_exit (codes "setsockopt"))
    serve rounds fuel lfd

  -- `main`
  pub echo_server : (rounds fuel : ℕ) → Prog K (Unit {0})
  echo_server rounds fuel = do
    need os.sigaction failure
    result ← of_act (inet_listen os.sockets service 10 false)
    listening rounds fuel result
