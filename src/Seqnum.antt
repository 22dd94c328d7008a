-- ===== src/Seqnum.antt =====
-- 59-socket-internet/is_seqnum_sv.c, is_seqnum_cl.c and is_seqnum.h: the server that gives out
-- sequence numbers over TCP, and its client. What only formats the client's address is left out.
pub mod Log
pub mod Ranges
pub mod Exchange
mod Tests
use my_linux_programming_int.Prelude.{
  c_string, ℕ, zero, suc, ◌+◌, ◌-◌, ◌%◌, ◌^◌, true, false, Option, none, some, List, [], ◌∷◌, ◌++◌,
  ◌==◌, if◌then◌else◌, length, ℤ, pos, negsuc, ltb_ℤ, Text, codes, text_eq,
}
use my_linux_programming_int.Sys.{Call, Proc}
use my_linux_programming_int.Clib.Decimal.{show_int}
use my_linux_programming_int.Clib.Strings.{snprintf}
use my_linux_programming_int.Clib.Strtol.{low_32, to_int, atoi}
use my_linux_programming_int.GetNum.{get_int}
use my_linux_programming_int.Io.ReadLine.{Line, read_line}
use my_linux_programming_int.Sockets.Api.{Api, AddrInfo, Hints}
use my_linux_programming_int.Sockets.Inet.{sock_stream, af_unspec, connect_loop}
use my_linux_programming_int.Program.{
  Prog, Exit, success, usage_err, err_exit, fatal, pure, stop, ◌>>=◌, ◌>>◌, attempt, need, checked,
  fueled, value, ended,
}

pub record SeqApi (K : Type 0) : Type 0 where
  pub sockets : Api K
  pub ignore_sigpipe : Call K (Unit {0})
  pub accept : (fd : ℕ) → Call K ℕ
  pub read : (fd n : ℕ) → Call K Text
  pub write : (fd : ℕ) → Text → Call K ℕ

abbrev pub int_len : ℕ
int_len = 30

abbrev port_num : Text
port_num = codes "50000"

abbrev ai_passive_numericserv : ℕ
ai_passive_numericserv = 1025

abbrev ai_numericserv : ℕ
ai_numericserv = 1024

-- `snprintf(seqNumStr, INT_LEN, "%d\n", seqNum)`: the `uint32_t` is printed as an `int`.
abbrev pub seq_num_str : (seq_num : ℕ) → Text
seq_num_str seq_num = snprintf int_len (show_int (to_int (pos seq_num)) ++ codes "\n")

module _ {K : Type 0} (os : SeqApi K) where
  open os use {sockets}

  -- The loop over the addresses; `setsockopt` is given a wrong pointer for its value.
  pub bind_first : List AddrInfo → Prog K ℕ
  bind_first [] = stop (fatal (codes "Could not bind socket to any address"))
  bind_first (rp ∷ rest) = do
    lfd ← attempt (sockets.socket rp.family rp.socktype rp.protocol)
    elim lfd [
      | none ↦ bind_first rest
      | some fd ↦ do
        need (sockets.reuse_addr fd) (err_exit (codes "setsockopt"))
        bound ← attempt (sockets.bind fd rp.addr rp.addrlen)
        elim bound [ some _ ↦ pure fd | none ↦ do attempt (sockets.close fd); bind_first rest ]
    ]

  -- a failed read or a bad request
  abbrev pub skip : (seq_num cfd : ℕ) → Prog K ℕ
  skip seq_num cfd = do attempt (sockets.close cfd); pure seq_num

  -- from `write` on
  pub grant : (seq_num cfd req_len : ℕ) → Prog K ℕ
  grant seq_num cfd req_len = do
    attempt (os.write cfd (seq_num_str seq_num))
    attempt (sockets.close cfd)
    pure ((seq_num + req_len) % 2 ^ 32)

  -- from `atoi` on
  pub answer : (seq_num cfd : ℕ) (req_len : ℤ) → Prog K ℕ
  answer seq_num cfd (pos (suc n)) = grant seq_num cfd (suc n)
  answer seq_num cfd (pos zero) = skip seq_num cfd
  answer seq_num cfd (negsuc n) = skip seq_num cfd

  -- One client, with the connection accepted: the new `seqNum`.
  pub handle : (fuel seq_num cfd : ℕ) → Prog K ℕ
  handle fuel seq_num cfd = do
    l ← fueled (read_line (os.read cfd) fuel false int_len)
    (if ltb_ℤ (pos 0) l.ret
        then answer seq_num cfd (atoi (c_string l.stored))
        else skip seq_num cfd)

  -- `rounds` rounds of the `for (;;)` loop; the value is `seqNum`.
  pub serve : (rounds fuel lfd seq_num : ℕ) → Prog K ℕ
  serve zero fuel lfd seq_num = pure seq_num
  serve (suc rounds) fuel lfd seq_num = do
    connection ← attempt (os.accept lfd)
    elim connection [
      | none ↦ serve rounds fuel lfd seq_num
      | some cfd ↦ do next ← handle fuel seq_num cfd; serve rounds fuel lfd next
    ]

  abbrev getaddrinfo : (host : Option Text) (flags : ℕ) → Prog K (List AddrInfo)
  getaddrinfo host flags p =
      let hints : Hints = record { family = af_unspec; socktype = sock_stream; flags = flags } in
      let (result, k) = sockets.getaddrinfo host port_num hints p.kernel in
      elim result [
        | none ↦ (ended (err_exit (codes "getaddrinfo")), record p { kernel = k })
        | some l ↦ (value l, record p { kernel = k })
      ]

  abbrev freeaddrinfo : List AddrInfo → Prog K (Unit {0})
  freeaddrinfo l p = (value tt, record p { kernel = sockets.freeaddrinfo l p.kernel })

  -- the server from `signal` on
  pub start : (rounds fuel seq_num : ℕ) → Prog K ℕ
  start rounds fuel seq_num = do
    need os.ignore_sigpipe (err_exit (codes "signal"))
    result ← getaddrinfo none ai_passive_numericserv
    lfd ← bind_first result
    need (sockets.listen lfd 50) (err_exit (codes "listen"))
    freeaddrinfo result
    serve rounds fuel lfd seq_num

  -- is_seqnum_sv.c; `argv` with the program's name first
  pub server : (rounds fuel : ℕ) (argv : List Text) → Prog K ℕ
  server rounds fuel (prog ∷ arg ∷ rest) =
      if text_eq arg (codes "--help")
      then stop (usage_err (prog ++ codes " [init-seq-num]\n"))
      else (do
        init ← checked (get_int (some arg) 0 (some (codes "init-seq-num")))
        start rounds fuel (low_32 init))
  server rounds fuel _ = start rounds fuel 0

  -- `write(cfd, s, n) != n`
  abbrev write_all : (cfd : ℕ) (s message : Text) → Prog K (Unit {0})
  write_all cfd s message = do
    n ← need (os.write cfd s) (fatal message)
    (if n == length s then pure tt else stop (fatal message))

  -- the client with a connection: what it prints
  pub ask : (fuel cfd : ℕ) (req_len_str : Text) → Prog K Text
  ask fuel cfd req_len_str = do
    write_all cfd req_len_str (codes "partial/failed write (reqLenStr)")
    write_all cfd (codes "\n") (codes "partial/failed write (newLine)")
    l ← fueled (read_line (os.read cfd) fuel false int_len)
    elim l.ret [
      | negsuc n ↦ stop (err_exit (codes "readLine"))
      | pos n ↦
          (if n == 0
            then stop (fatal (codes "Unexpected EOF from server"))
            else pure (codes "Sequence number: " ++ c_string l.stored))
    ]

  abbrev request_len : List Text → Text
  request_len [] = codes "1"
  request_len (len ∷ _) = len

  pub connect_first : List AddrInfo → Prog K ℕ
  connect_first l p =
      let (r, p1) = connect_loop sockets l p in
      elim r [
        | none ↦ (ended (fatal (codes "Could not connect socket to any address")), p1)
        | some cfd ↦ (value cfd, p1)
      ]

  -- is_seqnum_cl.c
  pub client : (fuel : ℕ) (argv : List Text) → Prog K Text
  client fuel (prog ∷ host ∷ rest) =
      if text_eq host (codes "--help")
      then stop (usage_err (prog ++ codes " server-host [sequence-len]\n"))
      else (do
        result ← getaddrinfo (some host) ai_numericserv
        cfd ← connect_first result
        freeaddrinfo result
        ask fuel cfd (request_len rest))
  client fuel (prog ∷ []) = stop (usage_err (prog ++ codes " server-host [sequence-len]\n"))
  client fuel [] = stop (usage_err (codes " server-host [sequence-len]\n"))
