-- ===== src/Fifo/Client.antt =====
-- 44-ipc-pipe-fifo/fifo_seqnum_client.c: the client of the sequence number server.
pub mod Asking
pub mod Tidy
use my_linux_programming_int.Prelude.{
  ℕ, Bool, true, false, not, Option, none, some, List, [], ◌∷◌, ◌++◌, ◌==◌, if◌then◌else◌, ℤ, pos,
  Text, codes, text_eq,
}
use my_linux_programming_int.Sys.{Call, Proc, sys}
use my_linux_programming_int.Clib.Decimal.{show_int}
use my_linux_programming_int.GetNum.{get_int, gn_gt_0}
use my_linux_programming_int.Program.{
  Prog, Exit, Result, value, ended, out_of_fuel, usage_err, err_exit, err_exit_now, fatal, killed,
  pure, stop, ◌>>=◌, ◌>>◌, attempt, need, checked,
}
use my_linux_programming_int.Fifo.{eexist, client_fifo}

-- What a write to a FIFO comes to: all the bytes of a request, fewer, or SIGPIPE where nobody reads it,
-- which the client does not ignore.
pub data Written : Type 0 where
  whole partial sigpipe : Written

pub record ClientApi (K : Type 0) : Type 0 where
  pub pid : ℕ  -- getpid()
  pub dump_core : Bool  -- whether getenv("EF_DUMPCORE") is there and not empty
  pub clear_umask : K → K
  pub mkfifo : (path : Text) → Call K (Unit {0})
  pub atexit : K → Bool × K  -- `true` for 0
  pub open_server : Call K ℕ  -- SERVER_FIFO, O_WRONLY
  pub write_request : (fd pid : ℕ) (seq_len : ℤ) → Call K Written
  pub open_client : (path : Text) → Call K ℕ
  pub read_response : (fd : ℕ) → Call K (Option ℤ)  -- `none` for fewer bytes than a response has
  pub unlink : (path : Text) → Call K (Unit {0})

abbrev pub server_fifo : Text
server_fifo = codes "/tmp/seqnum_sv"

-- `argv[1]`, where it is there
abbrev pub first_argument : List Text → Option Text
first_argument (prog ∷ arg ∷ rest) = some arg
first_argument (prog ∷ []) = none
first_argument [] = none

abbrev pub prog_name : List Text → Text
prog_name (prog ∷ rest) = prog
prog_name [] = []

abbrev pub asks_help : Option Text → Bool
asks_help none = false
asks_help (some arg) = text_eq arg (codes "--help")

module _ {K : Type 0} (os : ClientApi K) where
  abbrev pub my_fifo : Text
  my_fifo = client_fifo (pos os.pid)

  -- The value of the programs below is what is printed before the exit with success.
  abbrev pub seq_len : Option Text → Prog K ℤ
  seq_len none = pure (pos 1)
  seq_len (some arg) = checked (get_int (some arg) gn_gt_0 (some (codes "seq-len")))

  abbrev pub when_whole :
      {A : Type 0} → (message : Text) → Option A → (A → Prog K Text) → Prog K Text
  when_whole message none rest = stop (fatal message)
  when_whole message (some a) rest = rest a

  abbrev pub whole_read : Option (Option ℤ) → Option ℤ
  whole_read none = none
  whole_read (some none) = none
  whole_read (some (some n)) = some n

  -- behind the request
  pub receive : Prog K Text
  receive = do
    client_fd ← need (os.open_client my_fifo) (err_exit (codes "open " ++ my_fifo))
    resp ← attempt (os.read_response client_fd)
    when_whole (codes "Can't read response from server") (whole_read resp)
        (λ n. pure (show_int n ++ codes "\n"))

  abbrev pub unsent : Exit
  unsent = fatal (codes "Can't write to server")

  abbrev pub after_write : Option Written → Prog K Text
  after_write none = stop unsent
  after_write (some partial) = stop unsent
  after_write (some sigpipe) = stop killed
  after_write (some whole) = receive

  pub request : (len : ℤ) → Prog K Text
  request len = do
    server_fd ← need os.open_server (err_exit (codes "open " ++ server_fifo))
    sent ← attempt (os.write_request server_fd os.pid len)
    after_write sent

  -- with the exit handler registered
  pub converse : Option Text → Prog K Text
  converse arg = do len ← seq_len arg; request len

  -- `removeFifo`
  pub remove_fifo : Proc K → Proc K
  remove_fifo p = (sys (os.unlink my_fifo) p).1

  -- Whether an end runs the exit handlers: exit() does, but not abort(), which `terminate` of
  -- lib/error_functions.c calls where EF_DUMPCORE asks for it, nor _exit(), nor a signal.
  abbrev pub runs_handlers : Exit → Bool
  runs_handlers (err_exit m) = not os.dump_core
  runs_handlers (fatal m) = not os.dump_core
  runs_handlers (err_exit_now m) = false
  runs_handlers killed = false
  runs_handlers e = true

  -- a program that ends, or that exits with success, with the exit handler registered
  abbrev pub at_exit : {A : Type 0} → Result A × Proc K → Result A × Proc K
  at_exit (value a, p) = (value a, remove_fifo p)
  at_exit (ended e, p) = (ended e, (if runs_handlers e then remove_fifo p else p))
  at_exit (out_of_fuel, p) = (out_of_fuel, p)

  pub registered : (arg : Option Text) → Prog K Text
  registered arg p =
      let (done, k) = os.atexit p.kernel in
      if done
      then at_exit (converse arg (record p { kernel = k }))
      else stop (err_exit (codes "atexit")) (record p { kernel = k })

  -- by the result of mkfifo()
  pub with_fifo : (arg : Option Text) → Option (Unit {0}) → Prog K Text
  with_fifo arg (some u) p = registered arg p
  with_fifo arg none p =
      if p.errno == eexist then registered arg p else stop (err_exit (codes "mkfifo " ++ my_fifo)) p

  pub make_fifo : (arg : Option Text) → Prog K Text
  make_fifo arg p =
      let (made, p1) = sys (os.mkfifo my_fifo) (record p { kernel = os.clear_umask p.kernel }) in
      with_fifo arg made p1

  -- `main`
  pub fifo_client : (argv : List Text) → Prog K Text
  fifo_client argv =
      if asks_help (first_argument argv)
      then stop (usage_err (prog_name argv ++ codes " [seq-len]\n"))
      else make_fifo (first_argument argv)
