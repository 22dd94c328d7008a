-- ===== src/Sockets/Api.antt =====
-- The system calls on sockets and descriptors, and what the code relies on of them.
use my_linux_programming_int.Prelude.{ℕ, ◌≡◌, Option, none, some, List, ◌∷◌, Text}
use my_linux_programming_int.Sys.{
  ok, fail, Call, Proc, Act, sys, pure, get_errno, set_errno, ◌>>=◌, ◌>>◌,
}

-- `struct addrinfo`, without the link to the next
pub record AddrInfo : Type 0 where
  pub family : ℕ
  pub socktype : ℕ
  pub protocol : ℕ
  pub addr : Text
  pub addrlen : ℕ

-- the fields of `hints` that are not 0 or null
pub record Hints : Type 0 where
  pub family : ℕ
  pub socktype : ℕ
  pub flags : ℕ

pub record Api (K : Type 0) : Type 0 where
  pub socket : (domain type protocol : ℕ) → Call K ℕ
  pub connect : (fd : ℕ) (addr : Text) (addrlen : ℕ) → Call K (Unit {0})
  pub bind : (fd : ℕ) (addr : Text) (addrlen : ℕ) → Call K (Unit {0})
  pub listen : (fd backlog : ℕ) → Call K (Unit {0})
  pub reuse_addr : (fd : ℕ) → Call K (Unit {0})  -- setsockopt(fd, SOL_SOCKET, SO_REUSEADDR, ...)
  pub close : (fd : ℕ) → Call K (Unit {0})
  -- `none` for a status other than 0; `errno` is left alone
  pub getaddrinfo : (host : Option Text) (service : Text) → Hints → K → Option (List AddrInfo) × K
  pub freeaddrinfo : List AddrInfo → K → K

-- The descriptors that the process has open, the latest first.
pub record Descriptors {K : Type 0} (os : Api K) : Type 0 where
  pub opened : K → List ℕ
  pub socket_ok :
      (d t r : ℕ) (k : K) (fd : ℕ)
      → (os.socket d t r k).0 ≡ ok fd
      → opened (os.socket d t r k).1 ≡ fd ∷ opened k
  pub socket_fail :
      (d t r : ℕ) (k : K) (e : ℕ)
      → (os.socket d t r k).0 ≡ fail e
      → opened (os.socket d t r k).1 ≡ opened k
  pub connect_kept : (fd : ℕ) (a : Text) (n : ℕ) (k : K) → opened (os.connect fd a n k).1 ≡ opened k
  pub bind_kept : (fd : ℕ) (a : Text) (n : ℕ) (k : K) → opened (os.bind fd a n k).1 ≡ opened k
  pub listen_kept : (fd n : ℕ) (k : K) → opened (os.listen fd n k).1 ≡ opened k
  pub reuse_kept : (fd : ℕ) (k : K) → opened (os.reuse_addr fd k).1 ≡ opened k
  pub close_drops : (fd : ℕ) (k : K) (l : List ℕ) → opened k ≡ fd ∷ l → opened (os.close fd k).1 ≡ l
  pub getaddrinfo_kept :
      (h : Option Text) (s : Text) (i : Hints) (k : K)
      → opened (os.getaddrinfo h s i k).1 ≡ opened k
  pub freeaddrinfo_kept : (l : List AddrInfo) (k : K) → opened (os.freeaddrinfo l k) ≡ opened k

-- `savedErrno = errno; close(fd); errno = savedErrno; return -1;`
abbrev pub close_keeping_errno : {K A : Type 0} (close : Call K (Unit {0})) → Act K (Option A)
close_keeping_errno close = do saved ← get_errno; sys close; set_errno saved; pure none

-- On success exactly the returned descriptor is new; on failure none is.
abbrev pub Accounts :
    {K : Type 0} (opened : K → List ℕ) (before : List ℕ) → Option ℕ × Proc K → Type 0
Accounts opened before (none, p) = opened p.kernel ≡ before
Accounts opened before (some fd, p) = opened p.kernel ≡ fd ∷ before
