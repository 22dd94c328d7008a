-- ===== src/Command/Tests.antt =====
-- system.c with a child that exits with status 0 after two interruptions of the wait.
use my_linux_programming_int.Prelude.{ℕ, zero, suc, ◌<◌, ◌≡◌, false, some, codes, arith}
use my_linux_programming_int.Sys.{Reply, ok, fail, eintr}
use my_linux_programming_int.Command.{
  sig_ign, handler, Attributes, Caller, ProcessApi, blocked, child_attributes, system,
}
use my_linux_programming_int.Command.Signals.{
  WaitLaws, Restores, exec, exec-child_attributes, system-Restores,
}

abbrev wait_once : ℕ → Reply ℕ × ℕ
wait_once zero = (ok 0, 0)
wait_once (suc n) = (fail eintr, n)

abbrev kernel : ProcessApi ℕ
kernel = record { fork = λ command k. (ok 100, k); waitpid = λ pid k. wait_once k }

waits : (k : ℕ) → (wait_once k).0 ≡ fail eintr → (wait_once k).1 < k
waits zero e = absurd (cc)
waits (suc n) e = omega arith

abbrev laws : WaitLaws kernel
laws = record { pending = λ k. k; interrupted = λ pid k e. waits k e }

abbrev attributes : Attributes
attributes = record { mask = λ sig. false; on_int = handler 64; on_quit = sig_ign }

abbrev caller : Caller ℕ
caller = record { proc = record { errno = 0; kernel = 2 }; attributes = attributes }

system-Restores_example : Restores attributes (system kernel 3 0 (some (codes "ls")) caller)
system-Restores_example = system-Restores kernel laws 3 0 (some (codes "ls")) caller (omega arith)

exec-child_attributes_example :
    exec (child_attributes attributes (blocked attributes)) ≡ exec attributes
exec-child_attributes_example = exec-child_attributes attributes
