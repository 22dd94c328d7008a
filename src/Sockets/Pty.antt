-- ===== src/Sockets/Pty.antt =====
-- lib/pty_master_open.c: `ptyMasterOpen`.
pub mod Master
use my_linux_programming_int.Prelude.{
  ℕ, ◌-◌, ◌<◌, ◌≡◌, refl, sym, ◌∙◌, inl, inr, Option, none, some, List, ◌∷◌, ◌++◌, ltb,
  if◌then◌else◌, length, drop, replicate, take-append_le, take-replicate, arith, Text, Bool-cases,
}
use my_linux_programming_int.Sys.{Call, Proc, sys, Act, ok, fail, eoverflow, Reply-cases}
use my_linux_programming_int.Clib.Strings.{strncpy}
use my_linux_programming_int.Sockets.Api.{close_keeping_errno}

pub record PtyApi (K : Type 0) : Type 0 where
  pub posix_openpt : Call K ℕ
  pub grantpt : (fd : ℕ) → Call K (Unit {0})
  pub unlockpt : (fd : ℕ) → Call K (Unit {0})
  pub ptsname : (fd : ℕ) → Call K Text
  pub close : (fd : ℕ) → Call K (Unit {0})

-- the result, and the buffer `slaveName`
abbrev pub Opening : (K : Type 0) → Type 0
Opening K = Act K (Option ℕ × Text)

module _ {K : Type 0} (os : PtyApi K) where
  pub give_up : (fd : ℕ) (slave_name : Text) → Opening K
  give_up fd slave_name p =
      let (r, p1) = close_keeping_errno (os.close fd) p in ((r, slave_name), p1)

  -- behind the call of `ptsname`
  pub store_name : (fd sn_len : ℕ) (slave_name name : Text) → Opening K
  store_name fd sn_len slave_name name p =
      if ltb (length name) sn_len
      then ((some fd, strncpy slave_name name sn_len), p)
      else ((none, slave_name), record (sys (os.close fd) p).1 { errno = eoverflow })

  -- with the master open
  pub set_up : (fd sn_len : ℕ) (slave_name : Text) → Opening K
  set_up fd sn_len slave_name p =
      let (granted, p1) = sys (os.grantpt fd) p in
      elim granted [
        | none ↦ give_up fd slave_name p1
        | some _ ↦
            let (unlocked, p2) = sys (os.unlockpt fd) p1 in
            elim unlocked [
              | none ↦ give_up fd slave_name p2
              | some _ ↦
                  let (named, p3) = sys (os.ptsname fd) p2 in
                  elim named [
                    | none ↦ give_up fd slave_name p3
                    | some name ↦ store_name fd sn_len slave_name name p3
                  ]
            ]
      ]

  pub pty_master_open : (slave_name : Text) (sn_len : ℕ) → Opening K
  pty_master_open slave_name sn_len p =
      let (master, p1) = sys os.posix_openpt p in
      elim master [ none ↦ ((none, slave_name), p1) | some fd ↦ set_up fd sn_len slave_name p1 ]
