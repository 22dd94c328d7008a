-- ===== src/Sockets/Unix/Descriptors.antt =====
-- lib/unix_sockets.c: descriptors and `errno` after each branch, and the address that is built.
use my_linux_programming_int.Prelude.{
  ℕ, zero, suc, ◌-◌, ◌<◌, ◌≡◌, refl, ap, true, Option, none, some, [], ◌∷◌, ◌++◌, append_assoc, ltb,
  if◌then◌else◌, Bool-cases, inl, inr, length, take, take-append_le, take-replicate, replicate,
  arith, Text,
}
use mathlib.Core.Path.{subst}
use my_linux_programming_int.Sys.{ok, fail, Call, Proc, Reply-cases, enametoolong}
use my_linux_programming_int.Sockets.Api.{Api, Descriptors, Accounts}
use my_linux_programming_int.Sockets.Unix.{
  open_with, after_build, SockAddr, af_unix, sun_path_size, build_address, addr_bytes, addr_size,
  unix_connect, unix_bind,
}

abbrev zeros : ℕ → Text
zeros n = replicate n 0

replicate-snoc : (m : ℕ) → zeros m ++ 0 ∷ [] ≡ zeros (suc m)
replicate-snoc zero = refl
replicate-snoc (suc m) = rw (replicate-snoc m)

padded :
    (path : Text)
    → length path < sun_path_size
    → take 107 (path ++ replicate 107 0) ++ 0 ∷ [] ≡ path ++ replicate (108 - length path) 0
padded path h =
    rw
      (
        take-append_le 107 path (replicate 107 0) (omega arith),
        take-replicate {A = ℕ} (107 - length path) 107 0 (omega arith),
        append_assoc path (replicate (107 - length path) 0) (0 ∷ []),
        replicate-snoc (107 - length path),
      )
      (ap {A = ℕ} (λ k. path ++ zeros k) {x = suc (107 - length path)} (omega arith))

-- For a path and an address that are not null, `unixBuildAddress` succeeds exactly when the path and
-- its terminator fit `sun_path`; the address then holds the path followed by NUL bytes up to its
-- size. Otherwise it fails with `ENAMETOOLONG`.
pub build_address_lem :
    {K : Type 0} (path : Text) (start : SockAddr) (p : Proc K)
    → build_address (some path) (some start) p ≡ (
        if ltb (length path) sun_path_size
        then (
          (
            some tt,
            some (record {
              sun_family = af_unix;
              sun_path = path ++ replicate (sun_path_size - length path) 0;
            }),
          ),
          p,
        )
        else (
          (none, some (record { sun_family = af_unix; sun_path = replicate sun_path_size 0 })),
          record p { errno = enametoolong },
        ))
unfolding build_address
build_address_lem path start p = elim (Bool-cases (ltb (length path) sun_path_size)) [
  | inl fits ↦ rw (fits, padded path (ground arith)) refl
  | inr long ↦ rw long refl
]

kernel-build_address :
    {K : Type 0} (path : Option Text) (addr : Option SockAddr) (p : Proc K)
    → (build_address path addr p).1.kernel ≡ p.kernel
unfolding build_address
kernel-build_address none addr p = refl
kernel-build_address (some path) none p = refl
kernel-build_address (some path) (some a) p = ground arith

module _ {K : Type 0} (os : Api K) (laws : Descriptors os) where
  open laws use {opened, socket_ok, socket_fail, connect_kept, bind_kept, close_drops}

  module _ (attach : ℕ → Text → Call K (Unit {0}))
      (kept : (fd : ℕ) (a : Text) (k : K) → opened (attach fd a k).1 ≡ opened k) where
    open_with-Accounts :
        (a : Text) (type : ℕ) (p : Proc K)
        → Accounts opened (opened p.kernel) (open_with os (λ fd. attach fd a) type p)
    unfolding open_with
    open_with-Accounts a type p = elim (Reply-cases (os.socket af_unix type 0 p.kernel).0) [
      | inr (e, failed) ↦ ground (arith, socket_fail af_unix type 0 p.kernel e)
      | inl (fd, made) ↦
          let k = (os.socket af_unix type 0 p.kernel).1 in
          let k' = (attach fd a k).1 in
          ground (
            arith,
            socket_ok af_unix type 0 p.kernel fd,
            kept fd a k,
            close_drops fd k' (opened p.kernel),
          )
    ]

    after_build-Accounts :
        (type : ℕ) (b : (Option (Unit {0}) × Option SockAddr) × Proc K)
        → Accounts opened (opened b.1.kernel) (after_build os attach type b)
    unfolding after_build
    after_build-Accounts type ((none, a), p) = refl
    after_build-Accounts type ((some _, a), p) = open_with-Accounts (addr_bytes a) type p

  -- `errno` tells why the socket was not attached, whatever `close` does to it.
  open_with-errno :
      (attach : ℕ → Call K (Unit {0})) (type fd e : ℕ) (p : Proc K)
      → (os.socket af_unix type 0 p.kernel).0 ≡ ok fd
      → (attach fd (os.socket af_unix type 0 p.kernel).1).0 ≡ fail e
      → ((open_with os attach type p).0 ≡ none) × ((open_with os attach type p).1.errno ≡ e)
  unfolding open_with
  open_with-errno attach type fd e p made failed = ground arith

  -- `unixConnect` and `unixBind` leave exactly the descriptor open that they return, and none when
  -- they fail.
  pub unix_sockets-Accounts :
      (start : SockAddr) (path : Option Text) (type : ℕ) (p : Proc K)
      → Accounts opened (opened p.kernel) (unix_connect os start path type p)
        × Accounts opened (opened p.kernel) (unix_bind os start path type p)
  unfolding unix_connect unix_bind
  unix_sockets-Accounts start path type p =
      let same = kernel-build_address path (some start) p in
      let built = build_address path (some start) p in
      let connect = λ (fd : ℕ) (a : Text). os.connect fd a addr_size in
      let bind = λ (fd : ℕ) (a : Text). os.bind fd a addr_size in
      (
        subst (λ k. Accounts opened (opened k) (after_build os connect type built)) same
            (after_build-Accounts connect (λ fd a. connect_kept fd a addr_size) type built),
        subst (λ k. Accounts opened (opened k) (after_build os bind type built)) same
            (after_build-Accounts bind (λ fd a. bind_kept fd a addr_size) type built),
      )

  -- Where the path fits and a socket is made, but `connect` fails with error `e`, `unixConnect` fails
  -- with `errno` at `e`, whatever `close` does to it.
  pub unix_connect-errno :
      (start : SockAddr) (path : Text) (type fd e : ℕ) (p : Proc K)
      → length path < sun_path_size
      → let k = (os.socket af_unix type 0 p.kernel).1 in
        let addr = af_unix ∷ (path ++ zeros (sun_path_size - length path)) in
        (os.socket af_unix type 0 p.kernel).0 ≡ ok fd
        → (os.connect fd addr addr_size k).0 ≡ fail e
        → ((unix_connect os start (some path) type p).0 ≡ none)
          × ((unix_connect os start (some path) type p).1.errno ≡ e)
  unfolding unix_connect after_build
  unix_connect-errno start path type fd e p fits made failed =
      let built : (ltb (length path) sun_path_size) ≡ true = ground arith in
      rw (build_address_lem path start p, built)
        (open_with-errno
          (λ fd'.
            os.connect fd' (af_unix ∷ (path ++ zeros (sun_path_size - length path))) addr_size)
          type fd e p made failed)
