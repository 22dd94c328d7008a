-- ===== src/Io/Copy.antt =====
-- 4-fileio/copy.c: `main`, which copies a file.
pub mod Correct
use mathlib.Core.Option
use my_linux_programming_int.Prelude.{
  ℕ, Bool, true, false, ◌||◌, Option, none, some, List, [], ◌∷◌, ◌++◌, not, Text, codes, text_eq,
}
use my_linux_programming_int.Sys.{Call, Proc, sys}
use my_linux_programming_int.Io.Pump.{End, eof, read_error, write_error, pump}

-- How `main` ends: `exit(EXIT_SUCCESS)`, or a diagnostic and a failure status. `errno` tells the rest
-- of the message of `errExit`.
pub data Ended : Type 0 where
  exit_success : Ended
  usage_err err_exit fatal : (message : Text) → Ended

-- The system calls that the program makes.
pub record FileSys (K : Type 0) : Type 0 where
  pub open_read : (path : Text) → Call K ℕ
  pub open_trunc : (path : Text) → Call K ℕ  -- O_CREAT | O_WRONLY | O_TRUNC, rw-rw-rw-
  pub read : (fd n : ℕ) → Call K Text
  pub write : (fd : ℕ) → Text → Call K ℕ
  pub close : (fd : ℕ) → Call K (Unit {0})

abbrev pub buf_size : ℕ
buf_size = 1024

module _ {K : Type 0} (os : FileSys K) where
  abbrev over : Ended → Proc K → Option (Ended × Proc K)
  over e p = some (e, p)

  -- from the end of the loop on
  pub close_both : (input output : ℕ) → Proc K → Ended × Proc K
  close_both input output p =
      let (closed_in, p1) = sys (os.close input) p in
      elim closed_in [
        | none ↦ (err_exit (codes "close input"), p1)
        | some _ ↦
            let (closed_out, p2) = sys (os.close output) p1 in
            elim closed_out [
              | none ↦ (err_exit (codes "close output"), p2)
              | some _ ↦ (exit_success, p2)
            ]
      ]

  -- behind the loop, by the way it ended
  pub after_loop : (input output : ℕ) → End × Proc K → Ended × Proc K
  after_loop input output (eof, p) = close_both input output p
  after_loop input output (read_error, p) = (err_exit (codes "read"), p)
  after_loop input output (write_error, p) =
      (fatal (codes "write() returned error or partial write occurred"), p)

  -- with both files open
  pub transfer : (fuel input output : ℕ) → Proc K → Option (Ended × Proc K)
  transfer fuel input output p =
      Option.map (after_loop input output) (pump (os.read input) (os.write output) fuel buf_size p)

  pub copy_files : (fuel : ℕ) (old new : Text) → Proc K → Option (Ended × Proc K)
  copy_files fuel old new p =
      let (input, p1) = sys (os.open_read old) p in
      elim input [
        | none ↦ over (err_exit (codes "opening file " ++ old)) p1
        | some input_fd ↦
            let (output, p2) = sys (os.open_trunc new) p1 in
            elim output [
              | none ↦ over (err_exit (codes "opening file " ++ new)) p2
              | some output_fd ↦ transfer fuel input_fd output_fd p2
            ]
      ]

  -- `argv`, with the program's name first
  pub main : (fuel : ℕ) (argv : List Text) → Proc K → Option (Ended × Proc K)
  main fuel (prog ∷ old ∷ new ∷ []) p = elim (text_eq old (codes "--help")) [
    | true ↦ over (usage_err (prog ++ codes " old-file new-file\n")) p
    | false ↦ copy_files fuel old new p
  ]
  main fuel [] p = over (usage_err (codes " old-file new-file\n")) p
  main fuel (prog ∷ _) p = over (usage_err (prog ++ codes " old-file new-file\n")) p
