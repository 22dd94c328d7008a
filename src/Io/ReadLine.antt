-- ===== src/Io/ReadLine.antt =====
-- lib/read_line.c: `readLine`, one byte at a time.
pub mod Bound
pub mod Correct
pub mod Rounds
pub mod Noted
use my_linux_programming_int.Prelude.{
  ℕ, zero, suc, ◌+◌, ◌-◌, Bool, true, false, ◌||◌, Option, none, some, [], ◌∷◌, ◌++◌, ltb, ◌==◌,
  if◌then◌else◌, ℤ, pos, negsuc, Text,
}
use my_linux_programming_int.Sys.{Call, Proc, sys, eintr, einval}

-- The result, and the bytes stored from the start of `buffer` on.
pub record Line : Type 0 where
  pub ret : ℤ
  pub stored : Text

module _ {K : Type 0} where
  -- the `break`, and what follows the loop
  abbrev finish : (tot : ℕ) (out : Text) → Proc K → Option (Line × Proc K)
  finish tot out p = some (record { ret = pos tot; stored = out ++ 0 ∷ [] }, p)

  abbrev give_up : (out : Text) → Proc K → Option (Line × Proc K)
  give_up out p = some (record { ret = negsuc 0; stored = out }, p)

  abbrev at_eof : (tot : ℕ) (out : Text) → Proc K → Option (Line × Proc K)
  at_eof tot out p =
      if tot == 0 then some (record { ret = pos 0; stored = out }, p) else finish tot out p

module _ {K : Type 0} (read : ℕ → Call K Text) where
  -- The `for (;;)` loop with fuel; `none` means that the fuel ran out.
  pub read_line_loop : (fuel n tot : ℕ) (out : Text) → Proc K → Option (Line × Proc K)
  read_line_loop zero n tot out p = none
  read_line_loop (suc fuel) n tot out p =
      let (num_read, p') = sys (read 1) p in
      elim num_read [
        | none ↦ elim (p'.errno == eintr) [
          | true ↦ read_line_loop fuel n tot out p'
          | false ↦ give_up out p'
        ]
        | some bytes ↦ elim bytes [
          | [] ↦ at_eof tot out p'
          | ch ∷ _ ↦
              let tot' = if ltb tot (n - 1) then tot + 1 else tot in
              let out' = if ltb tot (n - 1) then out ++ ch ∷ [] else out in
              elim (ch == b'\n') [
                | true ↦ finish tot' out' p'
                | false ↦ read_line_loop fuel n tot' out' p'
              ]
        ]
      ]

  pub read_line : (fuel : ℕ) (buffer_is_null : Bool) (n : ℕ) → Proc K → Option (Line × Proc K)
  read_line fuel buffer_is_null n p =
      if n == 0 || buffer_is_null
      then some (record { ret = negsuc 0; stored = [] }, record p { errno = einval })
      else read_line_loop fuel n 0 [] p
