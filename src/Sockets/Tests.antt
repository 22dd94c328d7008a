-- ===== src/Sockets/Tests.antt =====
-- A kernel whose state is the list of open descriptors, on which `connect` and `listen` are refused.
use my_linux_programming_int.Prelude.{
  ℕ, ◌+◌, ◌≡◌, refl, true, false, none, some, List, [], ◌∷◌, length, replicate, codes, ap,
}
use my_linux_programming_int.Sys.{ok, fail, Proc}
use my_linux_programming_int.Sockets.Pty.{PtyApi, pty_master_open}
use my_linux_programming_int.Sockets.Pty.Master.{PtyDescriptors, Opens, pty_master_open-Opens}
use my_linux_programming_int.Sockets.Api.{Api, AddrInfo, Descriptors, Accounts}
use my_linux_programming_int.Sockets.Unix.{SockAddr, unix_connect, unix_bind}
use my_linux_programming_int.Sockets.Unix.Descriptors.{unix_sockets-Accounts}
use my_linux_programming_int.Sockets.Inet.{
  bind_loop, try_bind, inet_connect, inet_listen, inet_bind,
}
use my_linux_programming_int.Sockets.Inet.Descriptors.{
  Passive, inet_connect-Accounts, inet_sockets-Passive, inet_listen_leaks,
}

abbrev econnrefused : ℕ
econnrefused = 111

abbrev close_last : (fd : ℕ) → List ℕ → List ℕ
close_last fd [] = []
close_last fd (x ∷ l) = l

abbrev local : AddrInfo
local = record { family = 2; socktype = 1; protocol = 0; addr = codes "127.0.0.1"; addrlen = 16 }

abbrev kernel : Api (List ℕ)
kernel = record {
  socket = λ d t r k. (ok (3 + length k), (3 + length k) ∷ k);
  connect = λ fd a n k. (fail econnrefused, k);
  bind = λ fd a n k. (ok tt, k);
  listen = λ fd n k. (fail econnrefused, k);
  reuse_addr = λ fd k. (ok tt, k);
  close = λ fd k. (ok tt, close_last fd k);
  getaddrinfo = λ h s i k. (some (local ∷ local ∷ []), k);
  freeaddrinfo = λ l k. k;
}

ok-inj : {A : Type 0} {a b : A} → ok a ≡ ok b → a ≡ b
ok-inj e = cc

not_failed : {A : Type 0} (a : A) (e : ℕ) → ok a ≡ fail e → ⊥
not_failed a e h = cc

abbrev descriptors : Descriptors kernel
descriptors = record {
  opened = λ k. k;
  socket_ok = λ d t r k fd e. ap (λ n. n ∷ k) (ok-inj e);
  socket_fail = λ d t r k x e. absurd (not_failed (3 + length k) x e);
  connect_kept = λ fd a n k. refl;
  bind_kept = λ fd a n k. refl;
  listen_kept = λ fd n k. refl;
  reuse_kept = λ fd k. refl;
  close_drops = λ fd k l e. ap (close_last fd) e;
  getaddrinfo_kept = λ h s i k. refl;
  freeaddrinfo_kept = λ l k. refl;
}

abbrev proc : Proc (List ℕ)
proc = record { errno = 0; kernel = 7 ∷ [] }

abbrev blank : SockAddr
blank = record { sun_family = 0; sun_path = [] }

unix_sockets-Accounts_example :
    Accounts
      (λ (k : List ℕ). k)
      (7 ∷ [])
      (unix_connect kernel blank (some (codes "/tmp/sv")) 1 proc)
    × Accounts (λ (k : List ℕ). k) (7 ∷ []) (unix_bind kernel blank (some (codes "/tmp/sv")) 1 proc)
unix_sockets-Accounts_example =
    unix_sockets-Accounts kernel descriptors blank (some (codes "/tmp/sv")) 1 proc

inet_connect-Accounts_example :
    Accounts
      (λ (k : List ℕ). k)
      (7 ∷ [])
      (inet_connect kernel (codes "localhost") (codes "echo") 1 proc)
inet_connect-Accounts_example =
    inet_connect-Accounts kernel descriptors (codes "localhost") (codes "echo") 1 proc

inet_sockets-Passive_example :
    Passive kernel descriptors false (7 ∷ []) (inet_bind kernel (codes "echo") 2 true proc)
    × Passive kernel descriptors true (7 ∷ []) (inet_listen kernel (codes "echo") 5 true proc)
inet_sockets-Passive_example = inet_sockets-Passive kernel descriptors (codes "echo") 2 5 true proc

inet_listen_leaks_example :
    let (r, p') = inet_listen kernel (codes "echo") 5 true proc in
    (r.0 ≡ none) × (p'.kernel ≡ 4 ∷ 7 ∷ [])
inet_listen_leaks_example =
    inet_listen_leaks kernel descriptors (codes "echo") 5 true proc (local ∷ local ∷ []) 4
      econnrefused local refl (unfold bind_loop try_bind in refl) refl

-- pseudoterminal masters on the same state
abbrev ptys : PtyApi (List ℕ)
ptys = record {
  posix_openpt = λ k. (ok (3 + length k), (3 + length k) ∷ k);
  grantpt = λ fd k. (ok tt, k);
  unlockpt = λ fd k. (ok tt, k);
  ptsname = λ fd k. (ok (codes "/dev/pts/1"), k);
  close = λ fd k. (ok tt, close_last fd k);
}

abbrev pty_descriptors : PtyDescriptors ptys
pty_descriptors = record {
  opened = λ k. k;
  openpt_ok = λ k fd e. ap (λ n. n ∷ k) (ok-inj e);
  openpt_fail = λ k x e. absurd (not_failed (3 + length k) x e);
  grantpt_kept = λ fd k. refl;
  unlockpt_kept = λ fd k. refl;
  ptsname_kept = λ fd k. refl;
  close_drops = λ fd k l e. ap (close_last fd) e;
}

pty_master_open-Opens_example :
    Opens
      (λ k. k ≡ 7 ∷ [])
      (λ fd k. k ≡ fd ∷ (7 ∷ []))
      (replicate 20 1)
      20
      (pty_master_open ptys (replicate 20 1) 20 proc)
pty_master_open-Opens_example = pty_master_open-Opens ptys pty_descriptors (replicate 20 1) 20 proc
