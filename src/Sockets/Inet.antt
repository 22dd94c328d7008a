-- ===== src/Sockets/Inet.antt =====
-- lib/inet_sockets.c: sockets connected, bound or listening on an internet address.
pub mod Descriptors
use my_linux_programming_int.Prelude.{ℕ, Bool, true, false, Option, none, some, List, [], ◌∷◌, Text}
use my_linux_programming_int.Sys.{Call, Proc, sys, Act, enosys}
use my_linux_programming_int.Sockets.Api.{Api, AddrInfo, Hints}

abbrev pub sock_stream : ℕ
sock_stream = 1

abbrev pub af_unspec : ℕ
af_unspec = 0

abbrev pub ai_passive : ℕ
ai_passive = 1

-- How the loop of `inetPassiveSocket` ends: with a bound socket and its address, at the end of the
-- addresses, or by the early return after `setsockopt`.
pub data Bound : Type 0 where
  bound : (fd : ℕ) (rp : AddrInfo) → Bound
  exhausted aborted : Bound

module _ {K : Type 0} (os : Api K) where
  abbrev free : List AddrInfo → Proc K → Proc K
  free l p = record p { kernel = os.freeaddrinfo l p.kernel }

  -- The loop of `inetConnect` over the addresses; `none` is `rp == NULL`.
  pub connect_loop : List AddrInfo → Act K (Option ℕ)
  connect_loop [] p = (none, p)
  connect_loop (rp ∷ rest) p =
      let (sfd, p1) = sys (os.socket rp.family rp.socktype rp.protocol) p in
      elim sfd [
        | none ↦ connect_loop rest p1
        | some fd ↦
            let (connected, p2) = sys (os.connect fd rp.addr rp.addrlen) p1 in
            elim connected [
              | some _ ↦ (some fd, p2)
              | none ↦ connect_loop rest (sys (os.close fd) p2).1
            ]
      ]

  pub inet_connect : (host service : Text) (type : ℕ) → Act K (Option ℕ)
  inet_connect host service type p =
      let hints : Hints = record { family = af_unspec; socktype = type; flags = 0 } in
      let (result, k) = os.getaddrinfo (some host) service hints p.kernel in
      elim result [
        | none ↦ (none, record { errno = enosys; kernel = k })
        | some l ↦ let (r, p2) = connect_loop l (record p { kernel = k }) in (r, free l p2)
      ]

  -- from `bind` on
  unfoldable pub try_bind :
      (fd : ℕ) (rp : AddrInfo) (next : Proc K → Bound × Proc K) → Proc K → Bound × Proc K
  try_bind fd rp next p =
      let (bind_result, p1) = sys (os.bind fd rp.addr rp.addrlen) p in
      elim bind_result [ some _ ↦ (bound fd rp, p1) | none ↦ next (sys (os.close fd) p1).1 ]

  unfoldable pub bind_loop : (do_listen : Bool) → List AddrInfo → Proc K → Bound × Proc K
  bind_loop do_listen [] p = (exhausted, p)
  bind_loop do_listen (rp ∷ rest) p =
      let (sfd, p1) = sys (os.socket rp.family rp.socktype rp.protocol) p in
      elim sfd [
        | none ↦ bind_loop do_listen rest p1
        | some fd ↦ elim do_listen [
          | false ↦ try_bind fd rp (bind_loop do_listen rest) p1
          | true ↦
              let (reusable, p2) = sys (os.reuse_addr fd) p1 in
              elim reusable [
                | none ↦ (aborted, (sys (os.close fd) p2).1)
                | some _ ↦ try_bind fd rp (bind_loop do_listen rest) p2
              ]
        ]
      ]

  -- Behind the loop: the result, and what is stored in `*addrlen`, if anything.
  pub finish :
      (do_listen want_len : Bool) (backlog : ℕ) (result : List AddrInfo)
      → Bound × Proc K
      → (Option ℕ × Option ℕ) × Proc K
  finish do_listen want_len backlog result (aborted, p) = ((none, none), free result p)
  finish do_listen want_len backlog result (exhausted, p) = ((none, none), free result p)
  finish true want_len backlog result (bound fd rp, p) =
      let (listening, p1) = sys (os.listen fd backlog) p in
      elim listening [
        | none ↦ ((none, none), free result p1)
        | some _ ↦
            ((some fd, elim want_len [ true ↦ some rp.addrlen | false ↦ none ]), free result p1)
      ]
  finish false want_len backlog result (bound fd rp, p) =
      ((some fd, elim want_len [ true ↦ some rp.addrlen | false ↦ none ]), free result p)

  pub inet_passive_socket :
      (service : Text) (type : ℕ) (want_len do_listen : Bool) (backlog : ℕ)
      → Act K (Option ℕ × Option ℕ)
  inet_passive_socket service type want_len do_listen backlog p =
      let hints : Hints = record { family = af_unspec; socktype = type; flags = ai_passive } in
      let (result, k) = os.getaddrinfo none service hints p.kernel in
      elim result [
        | none ↦ ((none, none), record p { kernel = k })
        | some l ↦
            finish do_listen want_len backlog l (bind_loop do_listen l (record p { kernel = k }))
      ]

  pub inet_listen : (service : Text) (backlog : ℕ) (want_len : Bool) → Act K (Option ℕ × Option ℕ)
  inet_listen service backlog want_len =
      inet_passive_socket service sock_stream want_len true backlog

  pub inet_bind : (service : Text) (type : ℕ) (want_len : Bool) → Act K (Option ℕ × Option ℕ)
  inet_bind service type want_len = inet_passive_socket service type want_len false 0
