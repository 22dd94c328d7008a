-- ===== src/Command/Signals.antt =====
-- system.c: the signal attributes that the caller gets back, and those that the command starts with.
use my_linux_programming_int.Prelude.{
  ℕ, zero, suc, ◌<◌, ◌≡◌, refl, Bool-cases, Option, none, some, ◌==◌, if◌then◌else◌, inl, inr,
  arith, Text, codes,
}
use mathlib.Core.Option
use my_linux_programming_int.Sys.{Proc, fail, eintr, Reply-cases}
use my_linux_programming_int.Command.{
  Disposition, sig_dfl, sig_ign, handler, is_ign, Attributes, blocked, child_attributes, reset,
  Caller, ProcessApi, wait_child, finish, run_command, shell_available, system,
}

-- What `execve` does to a disposition: a handler is gone, the others stay.
abbrev pub over_exec : Disposition → Disposition
over_exec sig_ign = sig_ign
over_exec sig_dfl = sig_dfl
over_exec (handler a) = sig_dfl

abbrev pub exec : Attributes → Attributes
exec a = record a { on_int = over_exec a.on_int; on_quit = over_exec a.on_quit }

over_exec-reset :
    (d : Disposition) → over_exec (if is_ign d then sig_ign else sig_dfl) ≡ over_exec d
over_exec-reset sig_dfl = refl
over_exec-reset sig_ign = refl
over_exec-reset (handler a) = refl

-- The command runs with the signal attributes that it would have if the caller itself had executed it,
-- though `system` has changed them before it forks.
pub exec-child_attributes :
    (orig : Attributes) → exec (child_attributes orig (blocked orig)) ≡ exec orig
unfolding child_attributes blocked
exec-child_attributes orig = rw (over_exec-reset orig.on_int, over_exec-reset orig.on_quit) refl

-- `waitpid` is interrupted a bounded number of times.
pub record WaitLaws {K : Type 0} (os : ProcessApi K) : Type 0 where
  pub pending : K → ℕ
  pub interrupted :
      (pid : ℕ) (k : K)
      → (os.waitpid pid k).0 ≡ fail eintr
      → pending (os.waitpid pid k).1 < pending k

-- A result is there; the mask and the disposition of SIGINT are as before, and SIGQUIT has the
-- disposition that SIGINT had.
abbrev pub Restores : {K : Type 0} → Attributes → Option (Option ℕ × Caller K) → Type 0
Restores orig none = ⊥
Restores orig (some (status, c)) =
    (c.attributes.mask ≡ orig.mask)
    × (c.attributes.on_int ≡ orig.on_int)
    × (c.attributes.on_quit ≡ orig.on_int)

-- the command that the shell is given
abbrev pub line : Option Text → Text
line none = codes ":"
line (some command) = command

available :
    {K : Type 0} (os : ProcessApi K) (orig : Attributes) (r : Option (Option ℕ × Caller K))
    → Restores orig r
    → Restores orig (Option.map (shell_available os) r)
unfolding shell_available
available os orig none h = h
available os orig (some (status, c)) h = h

module _ {K : Type 0} (os : ProcessApi K) (laws : WaitLaws os) where
  open laws use {pending, interrupted}

  wait_child_ends :
      (fuel pid : ℕ) (p : Proc K)
      → pending p.kernel < fuel
      → (r : Option ℕ × Proc K) × (wait_child os fuel pid p ≡ some r)
  unfolding wait_child
  wait_child_ends zero pid p h = absurd (omega arith)
  wait_child_ends (suc fuel) pid p h =
      let k = (os.waitpid pid p.kernel).1 in
      elim (Reply-cases (os.waitpid pid p.kernel).0) [
        | inl (s, a) ↦ ((some s, record p { kernel = k }), ground (arith, a))
        | inr (e, a) ↦ elim (Bool-cases (e == eintr)) [
          | inl again ↦
              let e' : (os.waitpid pid p.kernel).0 ≡ fail eintr = ground (arith, a, again) in
              let (r, w) =
                wait_child_ends fuel pid (record { errno = e; kernel = k })
                  (omega (arith, h, interrupted pid p.kernel e')) in
              (r, ground (arith, a, again, w))
          | inr over ↦ ((none, record { errno = e; kernel = k }), ground (arith, a, over))
        ]
      ]

  run_command-Restores :
      (fuel disturbed : ℕ) (command : Text) (c : Caller K)
      → pending (os.fork command c.proc.kernel).1 < fuel
      → Restores c.attributes (run_command os fuel disturbed command c)
  unfolding run_command finish reset
  run_command-Restores fuel disturbed command c h =
      let k = (os.fork command c.proc.kernel).1 in
      elim (Reply-cases (os.fork command c.proc.kernel).0) [
        | inr (e, a) ↦ ground (arith, a)
        | inl (pid, a) ↦
            let (r, w) = wait_child_ends fuel pid (record { errno = c.proc.errno; kernel = k }) h in
            ground (arith, a, w)
      ]

  -- With fuel for the interruptions of `waitpid`, `system` returns. The caller then has its signal mask
  -- and its disposition of SIGINT again, whether `fork` or `waitpid` failed or not; but SIGQUIT has the
  -- disposition that SIGINT had.
  pub system-Restores :
      (fuel disturbed : ℕ) (command : Option Text) (c : Caller K)
      → pending (os.fork (line command) c.proc.kernel).1 < fuel
      → Restores c.attributes (system os fuel disturbed command c)
  unfolding system shell_available
  system-Restores fuel disturbed none c h =
      available os c.attributes (run_command os fuel disturbed (codes ":") c)
        (run_command-Restores fuel disturbed (codes ":") c h)
  system-Restores fuel disturbed (some command) c h =
      run_command-Restores fuel disturbed command c h
