-- ===== src/Sockets/Inet/Descriptors.antt =====
-- lib/inet_sockets.c: which descriptors are open after each call.
use my_linux_programming_int.Prelude.{
  ℕ, ◌≡◌, refl, ◌∙◌, ap, ◌⊎◌, inl, inr, Bool, true, false, Option, none, some, List, [], ◌∷◌, arith,
  Text, Option-cases,
}
use mathlib.Core.Path.{subst}
use my_linux_programming_int.Sys.{Reply, ok, fail, Proc, Reply-cases, sys}
use my_linux_programming_int.Sockets.Api.{Api, AddrInfo, Hints, Descriptors, Accounts}
use my_linux_programming_int.Sockets.Inet.{
  af_unspec, ai_passive, connect_loop, inet_connect, Bound, bound, exhausted, aborted, try_bind,
  bind_loop, finish, inet_passive_socket, inet_bind, inet_listen, sock_stream,
}

module _ {K : Type 0} (os : Api K) (laws : Descriptors os) where
  open laws use {
    opened, socket_ok, socket_fail, connect_kept, bind_kept, listen_kept, reuse_kept, close_drops,
    getaddrinfo_kept, freeaddrinfo_kept,
  }

  module _ (rp : AddrInfo) (p : Proc K) where
    abbrev made : Reply ℕ
    made = (os.socket rp.family rp.socktype rp.protocol p.kernel).0

    abbrev k1 : K
    k1 = (os.socket rp.family rp.socktype rp.protocol p.kernel).1

    opened-made : (fd : ℕ) → made ≡ ok fd → opened k1 ≡ fd ∷ opened p.kernel
    opened-made fd e = socket_ok rp.family rp.socktype rp.protocol p.kernel fd e

    opened-not_made : (x : ℕ) → made ≡ fail x → opened k1 ≡ opened p.kernel
    opened-not_made x e = socket_fail rp.family rp.socktype rp.protocol p.kernel x e

  closed : (fd : ℕ) (p : Proc K) → Proc K
  closed fd p = (sys (os.close fd) p).1

  opened-closed :
      (fd : ℕ) (p : Proc K) (l : List ℕ)
      → opened p.kernel ≡ fd ∷ l
      → opened (closed fd p).kernel ≡ l
  unfolding closed
  opened-closed fd p l h = ground (arith, close_drops fd p.kernel l)

  connect_loop-Accounts :
      (l : List AddrInfo) (p : Proc K) (before : List ℕ)
      → opened p.kernel ≡ before
      → Accounts opened before (connect_loop os l p)
  unfolding connect_loop closed
  connect_loop-Accounts [] p before h = h
  connect_loop-Accounts (rp ∷ rest) p before h = elim (Reply-cases (made rp p)) [
    | inr (x, e) ↦ ground (
      arith,
      connect_loop-Accounts rest (record { errno = x; kernel = k1 rp p }) before
          (opened-not_made rp p x e ∙ h),
    )
    | inl (fd, e) ↦
        let k2 = (os.connect fd rp.addr rp.addrlen (k1 rp p)).1 in
        let held =
          connect_kept fd rp.addr rp.addrlen (k1 rp p)
          ∙ opened-made rp p fd e
          ∙ ap (λ l. fd ∷ l) h in
        elim (Reply-cases (os.connect fd rp.addr rp.addrlen (k1 rp p)).0) [
          | inl (u, c) ↦ ground (arith, held)
          | inr (x, c) ↦
              let p2 : Proc K = record { errno = x; kernel = k2 } in
              ground (
                arith,
                connect_loop-Accounts rest (closed fd p2) before (opened-closed fd p2 before held),
              )
        ]
  ]

  -- `inetConnect` leaves exactly the descriptor open that it returns, and none when it fails, however
  -- many addresses it tries.
  pub inet_connect-Accounts :
      (host service : Text) (type : ℕ) (p : Proc K)
      → Accounts opened (opened p.kernel) (inet_connect os host service type p)
  unfolding inet_connect
  inet_connect-Accounts host service type p =
      let hints : Hints = record { family = af_unspec; socktype = type; flags = 0 } in
      let (result, k) = os.getaddrinfo (some host) service hints p.kernel in
      let kept = getaddrinfo_kept (some host) service hints p.kernel in
      elim (Option-cases (os.getaddrinfo (some host) service hints p.kernel).0) [
        | inl failed ↦ ground (arith, kept)
        | inr (l, found) ↦
            let r = connect_loop os l (record p { kernel = k }) in
            ground (
              arith,
              connect_loop-Accounts l (record p { kernel = k }) (opened p.kernel) kept,
              freeaddrinfo_kept l r.1.kernel,
            )
      ]

  -- what is open when the loop of `inetPassiveSocket` has ended
  abbrev Held : (before : List ℕ) → Bound × Proc K → Type 0
  Held before (bound fd rp, p) = opened p.kernel ≡ fd ∷ before
  Held before (exhausted, p) = opened p.kernel ≡ before
  Held before (aborted, p) = opened p.kernel ≡ before

  try_bind-Held :
      (fd : ℕ) (rp : AddrInfo) (next : Proc K → Bound × Proc K) (before : List ℕ) (p : Proc K)
      → opened p.kernel ≡ fd ∷ before
      → ((p' : Proc K) → opened p'.kernel ≡ before → Held before (next p'))
      → Held before (try_bind os fd rp next p)
  unfolding try_bind closed
  try_bind-Held fd rp next before p held go =
      let k2 = (os.bind fd rp.addr rp.addrlen p.kernel).1 in
      let held' = bind_kept fd rp.addr rp.addrlen p.kernel ∙ held in
      elim (Reply-cases (os.bind fd rp.addr rp.addrlen p.kernel).0) [
        | inl (u, c) ↦ ground (arith, held')
        | inr (x, c) ↦
            let p2 : Proc K = record { errno = x; kernel = k2 } in
            ground (arith, go (closed fd p2) (opened-closed fd p2 before held'))
      ]

  -- a round of the loop in which the socket `fd` is made
  after_socket :
      (do_listen : Bool) (rp : AddrInfo) (rest : List AddrInfo) (before : List ℕ) (fd : ℕ)
      (p : Proc K)
      → made rp p ≡ ok fd
      → opened (k1 rp p) ≡ fd ∷ before
      → ((p' : Proc K) → opened p'.kernel ≡ before → Held before (bind_loop os do_listen rest p'))
      → Held before (bind_loop os do_listen (rp ∷ rest) p)
  unfolding bind_loop closed
  after_socket false rp rest before fd p e held go =
      let p1 : Proc K = record p { kernel = k1 rp p } in
      ground (arith, try_bind-Held fd rp (bind_loop os false rest) before p1 held go)
  after_socket true rp rest before fd p e held go =
      let p1 : Proc K = record p { kernel = k1 rp p } in
      let k2 = (os.reuse_addr fd p1.kernel).1 in
      let held' = reuse_kept fd p1.kernel ∙ held in
      elim (Reply-cases (os.reuse_addr fd p1.kernel).0) [
        | inl (u, c) ↦ ground (
          arith,
          try_bind-Held fd rp (bind_loop os true rest) before (record p1 { kernel = k2 }) held' go,
        )
        | inr (x, c) ↦
            let p2 : Proc K = record { errno = x; kernel = k2 } in
            ground (arith, opened-closed fd p2 before held')
      ]

  bind_loop-Held :
      (do_listen : Bool) (l : List AddrInfo) (before : List ℕ) (p : Proc K)
      → opened p.kernel ≡ before
      → Held before (bind_loop os do_listen l p)
  unfolding bind_loop
  bind_loop-Held do_listen [] before p h = h
  bind_loop-Held do_listen (rp ∷ rest) before p h = elim (Reply-cases (made rp p)) [
    | inr (x, e) ↦ ground (
      arith,
      bind_loop-Held do_listen rest before (record { errno = x; kernel = k1 rp p })
          (opened-not_made rp p x e ∙ h),
    )
    | inl (fd, e) ↦
        let go : (p' : Proc K)
            → opened p'.kernel ≡ before
            → Held before (bind_loop os do_listen rest p') =
          bind_loop-Held do_listen rest before in
        let held = opened-made rp p fd e ∙ ap (λ r. fd ∷ r) h in
        after_socket do_listen rp rest before fd p e held go
  ]

  -- The result -1 with a descriptor left open: `listen` failed on it.
  abbrev pub Leaks : (do_listen : Bool) (before : List ℕ) → Proc K → Type 0
  Leaks do_listen before p = (do_listen ≡ true) × (fd : ℕ) × (opened p.kernel ≡ fd ∷ before)

  abbrev pub Passive :
      (do_listen : Bool) (before : List ℕ) → (Option ℕ × Option ℕ) × Proc K → Type 0
  Passive do_listen before ((some fd, len), p) = opened p.kernel ≡ fd ∷ before
  Passive do_listen before ((none, len), p) = (opened p.kernel ≡ before) ⊎ Leaks do_listen before p

  not_listening :
      (want_len : Bool) (backlog : ℕ) (l : List AddrInfo) (fd : ℕ) (rp : AddrInfo) (p : Proc K)
      (x : ℕ)
      → (os.listen fd backlog p.kernel).0 ≡ fail x
      → finish os true want_len backlog l (bound fd rp, p) ≡ (
        (none, none),
        record { errno = x; kernel = os.freeaddrinfo l (os.listen fd backlog p.kernel).1 },
      )
  unfolding finish
  not_listening want_len backlog l fd rp p x c = ground arith

  finish-Passive :
      (do_listen want_len : Bool) (backlog : ℕ) (l : List AddrInfo) (before : List ℕ)
      (b : Bound × Proc K)
      → Held before b
      → Passive do_listen before (finish os do_listen want_len backlog l b)
  unfolding finish
  finish-Passive do_listen want_len backlog l before (aborted, p) h =
      inl (freeaddrinfo_kept l p.kernel ∙ h)
  finish-Passive do_listen want_len backlog l before (exhausted, p) h =
      inl (freeaddrinfo_kept l p.kernel ∙ h)
  finish-Passive false want_len backlog l before (bound fd rp, p) h =
      freeaddrinfo_kept l p.kernel ∙ h
  finish-Passive true want_len backlog l before (bound fd rp, p) h =
      let k = (os.listen fd backlog p.kernel).1 in
      let held = freeaddrinfo_kept l k ∙ listen_kept fd backlog p.kernel ∙ h in
      elim (Reply-cases (os.listen fd backlog p.kernel).0) [
        | inl (u, c) ↦ ground (arith, held)
        | inr (x, c) ↦ rw (not_listening want_len backlog l fd rp p x c) (inr (refl, fd, held))
      ]

  leak_at :
      (want_len : Bool) (backlog : ℕ) (l : List AddrInfo) (before : List ℕ) (b : Bound) (p : Proc K)
      (fd : ℕ) (rp : AddrInfo) (x : ℕ)
      → b ≡ bound fd rp
      → (os.listen fd backlog p.kernel).0 ≡ fail x
      → Held before (b, p)
      → let (r, p') = finish os true want_len backlog l (b, p) in
        (r.0 ≡ none) × (opened p'.kernel ≡ fd ∷ before)
  leak_at want_len backlog l before b p fd rp x e refused held =
      let held' : opened p.kernel ≡ fd ∷ before = subst (λ c. Held before (c, p)) e held in
      rw (e, not_listening want_len backlog l fd rp p x refused)
        (refl, freeaddrinfo_kept l _ ∙ listen_kept fd backlog p.kernel ∙ held')

  abbrev pub passive_hints : ℕ → Hints
  passive_hints type = record { family = af_unspec; socktype = type; flags = ai_passive }

  module _ (service : Text) (type : ℕ) (want_len do_listen : Bool) (backlog : ℕ) (p : Proc K) where
    abbrev resolved : Option (List AddrInfo)
    resolved = (os.getaddrinfo none service (passive_hints type) p.kernel).0

    abbrev p1 : Proc K
    p1 = record p { kernel = (os.getaddrinfo none service (passive_hints type) p.kernel).1 }

    passive_unresolved :
        resolved ≡ none
        → inet_passive_socket os service type want_len do_listen backlog p ≡ ((none, none), p1)
    unfolding inet_passive_socket
    passive_unresolved e = ground arith

    passive_resolved :
        (l : List AddrInfo)
        → resolved ≡ some l
        → inet_passive_socket os service type want_len do_listen backlog p
          ≡ finish os do_listen want_len backlog l (bind_loop os do_listen l p1)
    unfolding inet_passive_socket
    passive_resolved l e = ground arith

    inet_passive_socket-Passive :
        Passive do_listen
          (opened p.kernel)
          (inet_passive_socket os service type want_len do_listen backlog p)
    inet_passive_socket-Passive =
        let kept = getaddrinfo_kept none service (passive_hints type) p.kernel in
        elim (Option-cases resolved) [
          | inl failed ↦ rw (passive_unresolved failed) (inl kept)
          | inr (l, found) ↦ rw (passive_resolved l found) (
              finish-Passive do_listen want_len backlog l (opened p.kernel) _
                (bind_loop-Held do_listen l (opened p.kernel) p1 kept))
        ]

  -- `inetBind` leaves exactly the descriptor open that it returns and none when it fails. So does
  -- `inetListen`, but that it may return -1 with one descriptor more left open.
  pub inet_sockets-Passive :
      (service : Text) (type backlog : ℕ) (want_len : Bool) (p : Proc K)
      → Passive false (opened p.kernel) (inet_bind os service type want_len p)
        × Passive true (opened p.kernel) (inet_listen os service backlog want_len p)
  unfolding inet_bind inet_listen
  inet_sockets-Passive service type backlog want_len p = (
    inet_passive_socket-Passive service type want_len false 0 p,
    inet_passive_socket-Passive service sock_stream want_len true backlog p,
  )

  -- Whenever `inetListen` binds a socket and `listen` fails on it, the result is -1 and the bound
  -- descriptor is still open.
  pub inet_listen_leaks :
      (service : Text) (backlog : ℕ) (want_len : Bool) (p : Proc K) (l : List AddrInfo) (fd x : ℕ)
      (rp : AddrInfo)
      → let g = os.getaddrinfo none service (passive_hints sock_stream) p.kernel in
        let b = bind_loop os true l (record p { kernel = g.1 }) in
        g.0 ≡ some l
        → b.0 ≡ bound fd rp
        → (os.listen fd backlog b.1.kernel).0 ≡ fail x
        → let (r, p') = inet_listen os service backlog want_len p in
          (r.0 ≡ none) × (opened p'.kernel ≡ fd ∷ opened p.kernel)
  unfolding inet_listen
  inet_listen_leaks service backlog want_len p l fd x rp found is_bound refused =
      let kept = getaddrinfo_kept none service (passive_hints sock_stream) p.kernel in
      let p2 = p1 service sock_stream want_len true backlog p in
      let b = bind_loop os true l p2 in
      let held = bind_loop-Held true l (opened p.kernel) p2 kept in
      rw (passive_resolved service sock_stream want_len true backlog p l found)
        (leak_at want_len backlog l (opened p.kernel) b.0 b.1 fd rp x is_bound refused held)
