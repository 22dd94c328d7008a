-- ===== src/Command.antt =====
-- 27-process-execute/system.c: `system`, by what it does to the signal attributes of the caller and of
-- the command. Calls of `sigprocmask` and `sigaction` with good arguments do not fail.
pub mod Signals
mod Tests
use mathlib.Core.Option
use my_linux_programming_int.Prelude.{
  ℕ, zero, suc, Bool, true, false, Option, none, some, ◌==◌, if◌then◌else◌, Text, codes,
}
use my_linux_programming_int.Sys.{Call, Proc, sys, eintr}

pub data Disposition : Type 0 where
  sig_dfl sig_ign : Disposition
  handler : (address : ℕ) → Disposition

abbrev pub is_ign : Disposition → Bool
is_ign sig_ign = true
is_ign sig_dfl = false
is_ign (handler a) = false

-- The signal mask, and the dispositions of SIGINT and SIGQUIT.
pub record Attributes : Type 0 where
  pub mask : ℕ → Bool
  pub on_int : Disposition
  pub on_quit : Disposition

abbrev pub sigchld : ℕ
sigchld = 17

-- in the parent, from the `sigaction` calls before `fork` on
pub blocked : Attributes → Attributes
blocked orig = record {
  mask = λ sig. if sig == sigchld then true else orig.mask sig;
  on_int = sig_ign;
  on_quit = sig_ign;
}

-- In the child, when it calls `execl`: `now` is what it has from `fork`.
pub child_attributes : (orig now : Attributes) → Attributes
child_attributes orig now = record {
  mask = orig.mask;
  on_int = if is_ign orig.on_int then now.on_int else sig_dfl;
  on_quit = if is_ign orig.on_quit then now.on_quit else sig_dfl;
}

-- The calls behind the wait: the disposition of SIGINT is given to both signals.
pub reset : (orig now : Attributes) → Attributes
reset orig now = record { mask = orig.mask; on_int = orig.on_int; on_quit = orig.on_int }

pub record Caller (K : Type 0) : Type 0 where
  pub proc : Proc K
  pub attributes : Attributes

pub record ProcessApi (K : Type 0) : Type 0 where
  pub fork : (command : Text) → Call K ℕ  -- as the parent sees it; the child runs the command
  pub waitpid : (pid : ℕ) → Call K ℕ

module _ {K : Type 0} (os : ProcessApi K) where
  -- The status, or `none` for -1; without fuel there is no result.
  pub wait_child : (fuel pid : ℕ) → Proc K → Option (Option ℕ × Proc K)
  wait_child zero pid p = none
  wait_child (suc fuel) pid p =
      let (status, p1) = sys (os.waitpid pid) p in
      elim status [
        | some s ↦ some (some s, p1)
        | none ↦ elim (p1.errno == eintr) [
          | true ↦ wait_child fuel pid p1
          | false ↦ some (none, p1)
        ]
      ]

  -- `savedErrno = errno`, the calls that reset the attributes, `errno = savedErrno`; these calls leave
  -- `disturbed` in `errno`.
  pub finish : (disturbed : ℕ) (orig now : Attributes) → Option ℕ × Proc K → Option ℕ × Caller K
  finish disturbed orig now (status, p) =
      let saved = p.errno in
      let p1 : Proc K = record p { errno = disturbed } in
      (status, record { proc = record p1 { errno = saved }; attributes = reset orig now })

  pub run_command : (fuel disturbed : ℕ) (command : Text) → Caller K → Option (Option ℕ × Caller K)
  run_command fuel disturbed command c =
      let orig = c.attributes in
      let now = blocked orig in
      let (child, p) = sys (os.fork command) c.proc in
      elim child [
        | none ↦ some (finish disturbed orig now (none, p))
        | some pid ↦ Option.map (finish disturbed orig now) (wait_child fuel pid p)
      ]

  abbrev is_zero : Option ℕ → Bool
  is_zero none = false
  is_zero (some s) = s == 0

  -- `system(":") == 0` as a number
  pub shell_available : Option ℕ × Caller K → Option ℕ × Caller K
  shell_available (status, c) = (some (if is_zero status then 1 else 0), c)

  pub system :
      (fuel disturbed : ℕ) (command : Option Text) → Caller K → Option (Option ℕ × Caller K)
  system fuel disturbed none c =
      Option.map shell_available (run_command fuel disturbed (codes ":") c)
  system fuel disturbed (some command) c = run_command fuel disturbed command c
