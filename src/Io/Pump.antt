-- ===== src/Io/Pump.antt =====
-- The loop `while ((numRead = read(in, buf, SIZE)) > 0) if (write(out, buf, numRead) != numRead) ...`
-- of 4-fileio/copy.c, 57-socket-unix/us_xfr_cl.c and us_xfr_sv.c, 44-ipc-pipe-fifo/simple_pipe.c and
-- 60-socket-design/is_echo_sv.c. How a program goes on after each of its ends is the program's.
pub mod Correct
pub mod Kept
use my_linux_programming_int.Prelude.{
  ℕ, zero, suc, true, false, Option, none, some, [], ◌∷◌, ◌==◌, length, Text,
}
use my_linux_programming_int.Sys.{Call, Proc, sys}

-- How the loop ends: at the end of the input, with `numRead == -1`, or after a write that failed or
-- was partial.
pub data End : Type 0 where
  eof read_error write_error : End

module _ {K : Type 0} (read : ℕ → Call K Text) (write : Text → Call K ℕ) where
  abbrev ended : End → Proc K → Option (End × Proc K)
  ended e p = some (e, p)

  -- `none` means that the fuel ran out.
  pub pump : (fuel size : ℕ) → Proc K → Option (End × Proc K)
  pump zero size p = none
  pump (suc fuel) size p =
      let (num_read, p') = sys (read size) p in
      elim num_read [
        | none ↦ ended read_error p'
        | some bytes ↦ elim bytes [
          | [] ↦ ended eof p'
          | b ∷ bs ↦
              let (num_written, p'') = sys (write (b ∷ bs)) p' in
              elim num_written [
                | none ↦ ended write_error p''
                | some m ↦ elim (m == length (b ∷ bs)) [
                  | true ↦ pump fuel size p''
                  | false ↦ ended write_error p''
                ]
              ]
        ]
      ]
