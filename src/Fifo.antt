-- ===== src/Fifo.antt =====
-- 44-ipc-pipe-fifo/fifo_seqnum_server.c and fifo_seqnum.h: the server that gives out ranges of
-- sequence numbers.
pub mod Replay
pub mod Ranges
pub mod Client
mod Tests
use my_linux_programming_int.Prelude.{
  ℕ, zero, suc, Bool, true, false, Option, none, some, ◌++◌, ◌==◌, if◌then◌else◌, ℤ, pos, ◌+ℤ◌,
  Text, codes,
}
use my_linux_programming_int.Sys.{Call, Proc, sys}
use my_linux_programming_int.Clib.Decimal.{show_int}
use my_linux_programming_int.Clib.Strings.{snprintf}
use my_linux_programming_int.Clib.Strtol.{to_int}
use my_linux_programming_int.Program.{Prog, Exit, err_exit, pure, stop, ◌>>=◌, ◌>>◌, attempt, need}

-- `struct request`
pub record Request : Type 0 where
  pub pid : ℤ
  pub seq_len : ℤ

pub record FifoApi (K : Type 0) : Type 0 where
  pub clear_umask : K → K
  pub mkfifo : Call K (Unit {0})  -- SERVER_FIFO
  pub open_read : Call K ℕ  -- SERVER_FIFO, O_RDONLY
  pub open_write : Call K ℕ  -- SERVER_FIFO, O_WRONLY
  pub ignore_sigpipe : Call K (Unit {0})
  pub read_request : (fd : ℕ) → Call K (Option Request)  -- `none` for fewer bytes than a request has
  pub open_client : (path : Text) → Call K ℕ
  pub write_response : (fd : ℕ) (seq_num : ℤ) → Call K Bool  -- `false` for fewer bytes than a response has
  pub close : (fd : ℕ) → Call K (Unit {0})

abbrev pub eexist : ℕ
eexist = 17

abbrev pub client_fifo_name_len : ℕ
client_fifo_name_len = 39

abbrev pub client_fifo : (pid : ℤ) → Text
client_fifo pid = snprintf client_fifo_name_len (codes "/tmp/seqnum_cl." ++ show_int pid)

abbrev pub no_server_fifo : Exit
no_server_fifo = err_exit (codes "open /tmp/seqnum_sv")

abbrev pub no_client_fifo : Request → Exit
no_client_fifo req = err_exit (codes "open " ++ client_fifo req.pid)

module _ {K : Type 0} (os : FifoApi K) where
  -- behind a request; the value is the new `seqNum`, an `int`
  pub respond : (seq_num : ℤ) (req : Request) → Prog K ℤ
  respond seq_num req = do
    client_fd ← need (os.open_client (client_fifo req.pid)) (no_client_fifo req)
    attempt (os.write_response client_fd seq_num)
    attempt (os.close client_fd)
    pure (to_int (seq_num +ℤ req.seq_len))

  -- by the result of read()
  abbrev pub on_read : (seq_num : ℤ) → Option (Option Request) → Prog K ℤ
  on_read seq_num none = pure seq_num
  on_read seq_num (some none) = pure seq_num
  on_read seq_num (some (some req)) = respond seq_num req

  -- `rounds` rounds of the `for (;;)` loop; the value is `seqNum`
  pub serve : (rounds server_fd : ℕ) (seq_num : ℤ) → Prog K ℤ
  serve zero server_fd seq_num = pure seq_num
  serve (suc rounds) server_fd seq_num = do
    got ← attempt (os.read_request server_fd)
    next ← on_read seq_num got
    serve rounds server_fd next

  -- from the opening of the FIFO on
  pub opened : (rounds : ℕ) → Prog K ℤ
  opened rounds = do
    server_fd ← need os.open_read no_server_fifo
    need os.open_write no_server_fifo
    need os.ignore_sigpipe (err_exit (codes "signal"))
    serve rounds server_fd (pos 0)

  -- by the result of mkfifo()
  abbrev pub made_fifo : (rounds : ℕ) → Option (Unit {0}) → Prog K ℤ
  made_fifo rounds (some u) p = opened rounds p
  made_fifo rounds none p =
      if p.errno == eexist
      then opened rounds p
      else stop (err_exit (codes "mkfifo /tmp/seqnum_sv")) p

  pub main : (rounds : ℕ) → Prog K ℤ
  main rounds p =
      let (made, p1) = sys os.mkfifo (record p { kernel = os.clear_umask p.kernel }) in
      made_fifo rounds made p1
