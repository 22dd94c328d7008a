-- ===== src/Io/Rdwrn.antt =====
-- lib/rdwrn.c: `readn` and `writen`, which go on after partial transfers and interruptions.
pub mod Readn
pub mod Writen
use my_linux_programming_int.Prelude.{
  ℕ, zero, suc, ◌+◌, ◌-◌, Bool, true, false, Option, none, some, [], ◌++◌, ltb, ◌==◌, ℤ, pos,
  negsuc, length, drop, Text,
}
use my_linux_programming_int.Sys.{Call, Proc, sys, eintr}

-- The result of `readn`, and the bytes stored from the start of `buffer` on.
pub record Transfer : Type 0 where
  pub ret : ℤ
  pub stored : Text

module _ {K : Type 0} (read : ℕ → Call K Text) where
  abbrev stop : ℤ → Text → Proc K → Option (Transfer × Proc K)
  stop r out p = some (record { ret = r; stored = out }, p)

  -- The `for` loop with fuel; `none` means that the fuel ran out. `totRead` is `tot`.
  pub readn_loop : (fuel n tot : ℕ) (out : Text) → Proc K → Option (Transfer × Proc K)
  readn_loop zero n tot out p = none
  readn_loop (suc fuel) n tot out p =
      let (num_read, p') = sys (read (n - tot)) p in
      elim (ltb tot n) [
        | false ↦ stop (pos tot) out p
        | true ↦ elim num_read [
          | none ↦ elim (p'.errno == eintr) [
            | true ↦ readn_loop fuel n tot out p'
            | false ↦ stop (negsuc 0) out p'
          ]
          | some bytes ↦ elim (length bytes == 0) [
            | true ↦ stop (pos tot) out p'
            | false ↦ readn_loop fuel n (tot + length bytes) (out ++ bytes) p'
          ]
        ]
      ]

  pub readn : (fuel n : ℕ) → Proc K → Option (Transfer × Proc K)
  readn fuel n p = readn_loop fuel n 0 [] p

module _ {K : Type 0} (write : Text → Call K ℕ) where
  abbrev leave : ℤ → Proc K → Option (ℤ × Proc K)
  leave r p = some (r, p)

  -- `rest` is the buffer from `buf` on, `n - totWritten` bytes; a result of 0 is an error, and
  -- `errno` then has no say.
  pub writen_loop : (fuel n tot : ℕ) (rest : Text) → Proc K → Option (ℤ × Proc K)
  writen_loop zero n tot rest p = none
  writen_loop (suc fuel) n tot rest p =
      let (num_written, p') = sys (write rest) p in
      elim (ltb tot n) [
        | false ↦ leave (pos tot) p
        | true ↦ elim num_written [
          | none ↦ elim (p'.errno == eintr) [
            | true ↦ writen_loop fuel n tot rest p'
            | false ↦ leave (negsuc 0) p'
          ]
          | some m ↦ elim (m == 0) [
            | true ↦ leave (negsuc 0) p'
            | false ↦ writen_loop fuel n (tot + m) (drop m rest) p'
          ]
        ]
      ]

  -- The buffer holds the `n` bytes that are to be written.
  pub writen : (fuel : ℕ) (buffer : Text) → Proc K → Option (ℤ × Proc K)
  writen fuel buffer p = writen_loop fuel (length buffer) 0 buffer p
