-- ===== src/Sockets/Unix.antt =====
-- lib/unix_sockets.c: addresses of UNIX domain sockets, and sockets connected or bound to them.
pub mod Descriptors
use my_linux_programming_int.Prelude.{
  ℕ, ◌-◌, ◌≡◌, Bool, true, false, ◌||◌, Option, none, some, [], ◌∷◌, ltb, if◌then◌else◌, length,
  replicate, Text,
}
use my_linux_programming_int.Sys.{
  Call, Proc, sys, Act, pure, ◌>>=◌, ◌>>◌, set_errno, get_errno, einval, enametoolong,
}
use my_linux_programming_int.Clib.Strings.{strncpy}
use my_linux_programming_int.Sockets.Api.{Api, close_keeping_errno}

-- `struct sockaddr_un`, whose `sun_path` has 108 bytes on Linux
pub record SockAddr : Type 0 where
  pub sun_family : ℕ
  pub sun_path : Text

abbrev pub af_unix : ℕ
af_unix = 1

abbrev pub sun_path_size : ℕ
sun_path_size = 108

abbrev zeroed : SockAddr
zeroed = record { sun_family = 0; sun_path = replicate sun_path_size 0 }

-- `unixBuildAddress`: the result, and `*addr` after the call (`none` stands for a null pointer).
pub build_address :
    {K : Type 0} (path : Option Text) (addr : Option SockAddr)
    → Act K (Option (Unit {0}) × Option SockAddr)
build_address none addr = do set_errno einval; pure (none, addr)
build_address (some path) none = do set_errno einval; pure (none, none)
build_address (some path) (some addr) =
    let a = record zeroed { sun_family = af_unix } in
    if ltb (length path) sun_path_size
    then pure (some tt, some (record a { sun_path = strncpy a.sun_path path (sun_path_size - 1) }))
    else (do set_errno enametoolong; pure (none, some a))

-- the address as the kernel is given it
abbrev pub addr_bytes : Option SockAddr → Text
addr_bytes none = []
addr_bytes (some a) = a.sun_family ∷ a.sun_path

abbrev pub addr_size : ℕ
addr_size = 110

module _ {K : Type 0} (os : Api K) where
  -- what `unixConnect` and `unixBind` do with an address that was built
  pub open_with : (attach : ℕ → Call K (Unit {0})) (type : ℕ) → Act K (Option ℕ)
  open_with attach type p =
      let (sd, p1) = sys (os.socket af_unix type 0) p in
      elim sd [
        | none ↦ (none, p1)
        | some fd ↦
            let (attached, p2) = sys (attach fd) p1 in
            elim attached [ none ↦ close_keeping_errno (os.close fd) p2 | some _ ↦ (some fd, p2) ]
      ]

  -- behind the call of `unixBuildAddress`
  pub after_build :
      (attach : (fd : ℕ) (addr : Text) → Call K (Unit {0})) (type : ℕ)
      → (Option (Unit {0}) × Option SockAddr) × Proc K
      → Option ℕ × Proc K
  after_build attach type ((none, addr), p) = (none, p)
  after_build attach type ((some _, addr), p) = open_with (λ fd. attach fd (addr_bytes addr)) type p

  -- The uninitialised `addr` on the stack is `start`.
  pub unix_connect : (start : SockAddr) (path : Option Text) (type : ℕ) → Act K (Option ℕ)
  unix_connect start path type p =
      after_build (λ fd addr. os.connect fd addr addr_size) type (build_address path (some start) p)

  pub unix_bind : (start : SockAddr) (path : Option Text) (type : ℕ) → Act K (Option ℕ)
  unix_bind start path type p =
      after_build (λ fd addr. os.bind fd addr addr_size) type (build_address path (some start) p)
