-- ===== src/Io/ReadLine/Rounds.antt =====
-- lib/read_line.c: the rounds of the loop of `readLine`, as equations.
use my_linux_programming_int.Prelude.{
  ℕ, suc, ◌+◌, ◌-◌, ◌≤◌, ◌≡◌, ◌≢◌, false, some, [], ◌∷◌, ◌++◌, ltb, ◌==◌, if◌then◌else◌, length,
  length-append, arith, pos, negsuc, Text,
}
use my_linux_programming_int.Sys.{Reply, ok, fail, Call, Proc, eintr}
use my_linux_programming_int.Io.ReadLine.{read_line_loop}

-- what one round stores
abbrev pub room : (n tot : ℕ) (out : Text) → ℕ → Text
room n tot out ch = if ltb tot (n - 1) then out ++ ch ∷ [] else out

pub length-room :
    (n : ℕ) (out : Text) (ch : ℕ)
    → length out ≤ n - 1
    → (length (room n (length out) out ch)
        ≡ (if ltb (length out) (n - 1) then length out + 1 else length out))
      × (length (room n (length out) out ch) ≤ n - 1)
length-room n out ch h = ground (arith, length-append out (ch ∷ []))

module _ {K : Type 0} (read : ℕ → Call K Text) where
  -- the call of `read` that a round makes
  abbrev pub reply : Proc K → Reply Text
  reply p = (read 1 p.kernel).0

  abbrev pub next : Proc K → K
  next p = (read 1 p.kernel).1

  module _ (f n tot : ℕ) (out : Text) (p : Proc K) where
    pub loop_interrupted :
        reply p ≡ fail eintr
        → read_line_loop read (suc f) n tot out p
          ≡ read_line_loop read f n tot out (record { errno = eintr; kernel = next p })
    unfolding read_line_loop
    loop_interrupted e = ground arith

    pub loop_failed :
        (x : ℕ)
        → x ≢ eintr
        → reply p ≡ fail x
        → read_line_loop read (suc f) n tot out p
          ≡ some (record { ret = negsuc 0; stored = out }, record { errno = x; kernel = next p })
    unfolding read_line_loop
    loop_failed x h e = ground arith

    pub loop_eof :
        reply p ≡ ok []
        → read_line_loop read (suc f) n tot out p
          ≡ some (
            (if tot == 0
                then record { ret = pos 0; stored = out }
                else record { ret = pos tot; stored = out ++ 0 ∷ [] }),
            record p { kernel = next p },
          )
    unfolding read_line_loop
    loop_eof e = ground arith

    pub loop_byte :
        (ch : ℕ) (bs : Text)
        → reply p ≡ ok (ch ∷ bs)
        → (ch == b'\n') ≡ false
        → read_line_loop read (suc f) n tot out p
          ≡ read_line_loop read f n
              (if ltb tot (n - 1) then tot + 1 else tot)
              (room n tot out ch)
              (record p { kernel = next p })
    unfolding read_line_loop
    loop_byte ch bs e h = ground arith

    pub loop_newline :
        (bs : Text)
        → reply p ≡ ok (b'\n' ∷ bs)
        → read_line_loop read (suc f) n tot out p
          ≡ some (
            record {
              ret = pos (if ltb tot (n - 1) then tot + 1 else tot);
              stored = room n tot out b'\n' ++ 0 ∷ [];
            },
            record p { kernel = next p },
          )
    unfolding read_line_loop
    loop_newline bs e = ground arith
