-- ===== src/Io/ReadLine/Bound.antt =====
-- lib/read_line.c: `readLine` stays inside the buffer.
use my_linux_programming_int.Prelude.{
  ℕ, zero, suc, ◌-◌, ◌≤◌, ◌<◌, Bool, true, false, Option, none, some, [], ◌∷◌, ◌==◌, inl, inr,
  Bool-cases, length, length-append, arith, Text, List-cases,
}
use my_linux_programming_int.Sys.{Call, Proc, eintr, Reply-cases}
use my_linux_programming_int.Io.ReadLine.{Line, read_line_loop, read_line}
use my_linux_programming_int.Io.ReadLine.Rounds.{
  room, length-room, reply, next, loop_interrupted, loop_failed, loop_eof, loop_byte, loop_newline,
}

-- Nothing is stored behind the `n` bytes of the buffer.
abbrev pub Within : {K : Type 0} → ℕ → Option (Line × Proc K) → Type 0
Within n none = Unit
Within n (some (l, p)) = length l.stored ≤ n

module _ {K : Type 0} (read : ℕ → Call K Text) where
  loop-Within :
      (fuel n : ℕ) (out : Text) (p : Proc K)
      → 0 < n
      → length out ≤ n - 1
      → Within n (read_line_loop read fuel n (length out) out p)
  loop-Within zero n out p h fits = unfold read_line_loop in tt
  loop-Within (suc f) n out p h fits = elim (Reply-cases (reply read p)) [
    | inr (x, e) ↦ elim (Bool-cases (x == eintr)) [
      | inl same ↦
          rw (loop_interrupted read f n (length out) out p (ground arith))
            (loop-Within f n out (record { errno = eintr; kernel = next read p }) h fits)
      | inr other ↦ rw (loop_failed read f n (length out) out p x (ground arith) e) (omega arith)
    ]
    | inl (bs, e) ↦ elim (List-cases bs) [
      | inl nil ↦
          rw (loop_eof read f n (length out) out p (ground arith))
            (ground (arith, length-append out (0 ∷ [])))
      | inr (ch, t, cons) ↦
          let (len, small) = length-room n out ch fits in
          elim (Bool-cases (ch == b'\n')) [
            | inl nl ↦
                rw (loop_newline read f n (length out) out p t (ground arith))
                  (ground (arith, length-append (room n (length out) out ch) (0 ∷ [])))
            | inr other ↦
                rw (loop_byte read f n (length out) out p ch t (ground arith) other, ← len)
                  (loop-Within f n (room n (length out) out ch) (record p { kernel = next read p })
                    h small)
          ]
    ]
  ]

  -- Whatever `read` replies, and on every result, errors included, `readLine` with a buffer of `n`
  -- bytes has stored at most `n` bytes, the terminator included.
  pub read_line-Within :
      (fuel : ℕ) (buffer_is_null : Bool) (n : ℕ) (p : Proc K)
      → Within n (read_line read fuel buffer_is_null n p)
  unfolding read_line
  read_line-Within fuel true n p = ground arith
  read_line-Within fuel false n p = elim (Bool-cases (n == 0)) [
    | inl none_left ↦ rw none_left (omega arith)
    | inr some_left ↦ rw some_left (loop-Within fuel n [] p (ground arith) (omega arith))
  ]
