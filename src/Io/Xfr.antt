-- ===== src/Io/Xfr.antt =====
-- 57-socket-unix/us_xfr_cl.c, us_xfr_sv.c and us_xfr.h: a client that sends its input over a UNIX
-- domain socket, and a server that writes what its clients send.
pub mod Relay
use mathlib.Core.Option
use my_linux_programming_int.Prelude.{
  ℕ, zero, suc, ◌-◌, Bool, true, false, Option, none, some, [], ◌∷◌, ◌++◌, ltb, ◌==◌, replicate,
  length, Text, codes,
}
use my_linux_programming_int.Sys.{Call, Proc, sys, enoent}
use my_linux_programming_int.Clib.Strings.{strncpy}
use my_linux_programming_int.Io.Copy.{Ended, exit_success, err_exit, fatal}
use my_linux_programming_int.Io.Pump.{End, eof, read_error, write_error, pump}

pub record XfrApi (K : Type 0) : Type 0 where
  pub socket : Call K ℕ  -- AF_UNIX, SOCK_STREAM
  pub connect : (fd : ℕ) (addr : Text) → Call K (Unit {0})
  pub remove : (path : Text) → Call K (Unit {0})
  pub bind : (fd : ℕ) (addr : Text) → Call K (Unit {0})
  pub listen : (fd backlog : ℕ) → Call K (Unit {0})
  pub accept : (fd : ℕ) → Call K ℕ
  pub read : (fd n : ℕ) → Call K Text
  pub write : (fd : ℕ) → Text → Call K ℕ
  pub close : (fd : ℕ) → Call K (Unit {0})

abbrev pub sv_sock_path : Text
sv_sock_path = codes "/tmp/us_xfr"

abbrev pub buf_size : ℕ
buf_size = 100

abbrev sun_path_size : ℕ
sun_path_size = 108

-- `addr`: the family AF_UNIX, and the path
abbrev pub address : Text
address = 1 ∷ strncpy (replicate sun_path_size 0) sv_sock_path (sun_path_size - 1)

-- to the next connection, unless the process has ended
abbrev after_handle :
    {K : Type 0}
    → Option (Option Ended × Proc K)
    → (Proc K → Option (Option Ended × Proc K))
    → Option (Option Ended × Proc K)
after_handle none next = none
after_handle (some (some e, p)) next = some (some e, p)
after_handle (some (none, p)) next = next p

module _ {K : Type 0} (os : XfrApi K) where
  -- behind the loop of the client
  pub sent : End × Proc K → Ended × Proc K
  sent (eof, p) = (exit_success, p)
  sent (read_error, p) = (err_exit (codes "read"), p)
  sent (write_error, p) = (fatal (codes "partial/failed write"), p)

  -- us_xfr_cl.c
  pub client : (fuel : ℕ) → Proc K → Option (Ended × Proc K)
  client fuel p =
      let (sock, p1) = sys os.socket p in
      elim sock [
        | none ↦ some (err_exit (codes "socket"), p1)
        | some sfd ↦
            let (connected, p2) = sys (os.connect sfd address) p1 in
            elim connected [
              | none ↦ some (err_exit (codes "close"), p2)
              | some _ ↦ Option.map sent (pump (os.read 0) (os.write sfd) fuel buf_size p2)
            ]
      ]

  -- Behind the transfer loop of the server: `none` goes on to the next connection, also where `close`
  -- fails, which is only reported.
  pub received : (cfd : ℕ) → End × Proc K → Option Ended × Proc K
  received cfd (eof, p) = (none, (sys (os.close cfd) p).1)
  received cfd (read_error, p) = (some (err_exit (codes "read")), p)
  received cfd (write_error, p) = (some (fatal (codes "partial/failed write")), p)

  -- one connection
  pub handle : (fuel cfd : ℕ) → Proc K → Option (Option Ended × Proc K)
  handle fuel cfd p = Option.map (received cfd) (pump (os.read cfd) (os.write 1) fuel buf_size p)

  -- `rounds` rounds of the `for (;;)` loop, each with its own fuel; the ending is `none` if the server
  -- still runs.
  pub accept_loop : (rounds fuel sfd : ℕ) → Proc K → Option (Option Ended × Proc K)
  accept_loop zero fuel sfd p = some (none, p)
  accept_loop (suc rounds) fuel sfd p =
      let (connection, p1) = sys (os.accept sfd) p in
      elim connection [
        | none ↦ some (some (err_exit (codes "accept")), p1)
        | some cfd ↦ after_handle (handle fuel cfd p1) (accept_loop rounds fuel sfd)
      ]

  -- with the socket, once its path is free
  pub bound : (rounds fuel sfd : ℕ) → Proc K → Option (Option Ended × Proc K)
  bound rounds fuel sfd p =
      let (named, p1) = sys (os.bind sfd address) p in
      elim named [
        | none ↦ some (some (err_exit (codes "bind")), p1)
        | some _ ↦
            let (listening, p2) = sys (os.listen sfd 5) p1 in
            elim listening [
              | none ↦ some (some (err_exit (codes "listen")), p2)
              | some _ ↦ accept_loop rounds fuel sfd p2
            ]
      ]

  -- us_xfr_sv.c
  pub server : (rounds fuel : ℕ) → Proc K → Option (Option Ended × Proc K)
  server rounds fuel p =
      let (sock, p1) = sys os.socket p in
      elim sock [
        | none ↦ some (some (err_exit (codes "socket")), p1)
        | some sfd ↦ elim (ltb (sun_path_size - 1) (length sv_sock_path)) [
          | true ↦ some (some (fatal (codes "Server socket path too long: " ++ sv_sock_path)), p1)
          | false ↦
              let (removed, p2) = sys (os.remove sv_sock_path) p1 in
              elim removed [
                | some _ ↦ bound rounds fuel sfd p2
                | none ↦ elim (p2.errno == enoent) [
                  | true ↦ bound rounds fuel sfd p2
                  | false ↦ some (some (err_exit (codes "remove-" ++ sv_sock_path)), p2)
                ]
              ]
        ]
      ]
