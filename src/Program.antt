-- ===== src/Program.antt =====
-- Whole programs: code that reads and writes the state of the process, and may end it.
pub mod After
use my_linux_programming_int.Prelude.{Option, none, some, Text}
use my_linux_programming_int.Sys.{Call, Proc, sys, Act}
use my_linux_programming_int.GetNum.{Checked, returned, exited}

-- How a process ends: exit(EXIT_SUCCESS) or _exit(EXIT_SUCCESS), exit(EXIT_FAILURE), by a function of
-- lib/error_functions.c with its message (err_exit is errExit(), err_exit_now is err_exit()), by gnFail with what it has written,
-- or killed by a signal.
pub data Exit : Type 0 where
  success failure : Exit
  usage_err cmd_line_err err_exit err_exit_now fatal : (message : Text) → Exit
  gn_fail : (stderr : Text) → Exit
  killed : Exit

-- A loop on system calls that has run out of its fuel has no result.
pub data Result (A : Type 0) : Type 0 where
  value : A → Result A
  ended : Exit → Result A
  out_of_fuel : Result A

abbrev pub Prog : (K A : Type 0) → Type 0
Prog K A = Proc K → Result A × Proc K

module _ {K A : Type 0} where
  abbrev pub pure : A → Prog K A
  pure a p = (value a, p)

  abbrev pub stop : Exit → Prog K A
  stop e p = (ended e, p)

  infixl 5 ◌>>=◌ ◌>>◌
  abbrev pub bind_result : {B : Type 0} → (A → Prog K B) → Result A × Proc K → Result B × Proc K
  bind_result f (value a, p) = f a p
  bind_result f (ended e, p) = (ended e, p)
  bind_result f (out_of_fuel, p) = (out_of_fuel, p)

  abbrev pub ◌>>=◌ : {B : Type 0} → Prog K A → (A → Prog K B) → Prog K B
  ◌>>=◌ m f p = bind_result f (m p)

  abbrev pub ◌>>◌ : {B : Type 0} → Prog K A → Prog K B → Prog K B
  ◌>>◌ m k p = bind_result (λ _. k) (m p)

  -- a system call, `none` for its result -1
  abbrev pub attempt : Call K A → Prog K (Option A)
  attempt f p = let (r, p1) = sys f p in (value r, p1)

  abbrev pub or_exit : Exit → Option A × Proc K → Result A × Proc K
  or_exit e (some a, p) = (value a, p)
  or_exit e (none, p) = (ended e, p)

  -- `if (f(...) == -1) ...`, with a call that ends the process
  abbrev pub need : Call K A → Exit → Prog K A
  need f e p = or_exit e (sys f p)

  abbrev pub checked : Checked A → Prog K A
  checked (returned a) p = (value a, p)
  checked (exited status stderr) p = (ended (gn_fail stderr), p)

  abbrev pub of_fueled : Proc K → Option (A × Proc K) → Result A × Proc K
  of_fueled p none = (out_of_fuel, p)
  of_fueled p (some (a, p1)) = (value a, p1)

  -- a loop with fuel of its own
  abbrev pub fueled : (Proc K → Option (A × Proc K)) → Prog K A
  fueled f p = of_fueled p (f p)

  abbrev pub of_act : Act K A → Prog K A
  of_act f p = let (a, p1) = f p in (value a, p1)
