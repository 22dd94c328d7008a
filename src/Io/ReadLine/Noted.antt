-- ===== src/Io/ReadLine/Noted.antt =====
-- lib/read_line.c: what `readLine` shows of itself outside of its descriptor: a failed read, at most.
use my_linux_programming_int.Prelude.{
  ℕ, zero, suc, ◌+◌, ◌-◌, false, ◌≡◌, ◌≢◌, refl, ap, ◌∙◌, ◌⊎◌, inl, inr, Bool-cases, List-cases,
  Option, none, some, [], ◌∷◌, ◌++◌, ltb, ◌==◌, if◌then◌else◌, pos, negsuc, Text, arith,
}
use my_linux_programming_int.Sys.{Call, Proc, ok, fail, eintr, Reply-cases}
use my_linux_programming_int.Io.ReadLine.{Line, read_line_loop, read_line}
use my_linux_programming_int.Io.ReadLine.Rounds.{
  room, reply, next, loop_interrupted, loop_failed, loop_eof, loop_byte, loop_newline,
}

-- A part of the state that reads keep, but for a failure with another error than `EINTR`.
pub record Notes {K E : Type 0} (read : ℕ → Call K Text) (log : K → E) (mark : E → E) : Type 0 where
  pub read_ok : (n : ℕ) (k : K) (bs : Text) → (read n k).0 ≡ ok bs → log (read n k).1 ≡ log k
  pub read_interrupted : (n : ℕ) (k : K) → (read n k).0 ≡ fail eintr → log (read n k).1 ≡ log k
  pub read_failed :
      (n : ℕ) (k : K) (x : ℕ) → (read n k).0 ≡ fail x → x ≢ eintr → log (read n k).1 ≡ mark (log k)

module _ {K E : Type 0} (read : ℕ → Call K Text) (log : K → E) (mark : E → E)
    (notes : Notes read log mark) where
  open notes use {read_ok, read_interrupted, read_failed}

  -- A failure is marked, a line is not.
  abbrev pub Noted : E → Option (Line × Proc K) → Type 0
  Noted before none = Unit
  Noted before (some (l, p)) =
      ((l.ret ≡ negsuc 0) × (log p.kernel ≡ mark before))
      ⊎ ((m : ℕ) × (l.ret ≡ pos m) × (log p.kernel ≡ before))

  eof-Noted :
      (tot : ℕ) (out : Text) (before : E) (p : Proc K)
      → log p.kernel ≡ before
      → Noted before (
          some (
            (if tot == 0
                then record { ret = pos 0; stored = out }
                else record { ret = pos tot; stored = out ++ 0 ∷ [] }),
            p,
          ))
  eof-Noted zero out before p h = inr (0, refl, h)
  eof-Noted (suc tot) out before p h =
      let e : (suc tot == 0) ≡ false = ground arith in rw e (inr (suc tot, refl, h))

  loop-Noted :
      (fuel n tot : ℕ) (out : Text) (before : E) (p : Proc K)
      → log p.kernel ≡ before
      → Noted before (read_line_loop read fuel n tot out p)
  unfolding read_line_loop
  loop-Noted zero n tot out before p h = tt
  loop-Noted (suc f) n tot out before p h = elim (Reply-cases (reply read p)) [
    | inl (bs, e) ↦
        let h1 = read_ok 1 p.kernel bs e ∙ h in
        elim (List-cases bs) [
          | inl nil ↦
              let e' : reply read p ≡ ok [] = ground arith in
              rw (loop_eof read f n tot out p e')
                (eof-Noted tot out before (record p { kernel = next read p }) h1)
          | inr (ch, t, cons) ↦
              let e' : reply read p ≡ ok (ch ∷ t) = ground arith in
              elim (Bool-cases (ch == b'\n')) [
                | inl nl ↦
                    let c : ch ≡ b'\n' = ground arith in
                    let e'' : reply read p ≡ ok (b'\n' ∷ t) = rw (← c) e' in
                    rw (loop_newline read f n tot out p t e'') (inr (_, refl, h1))
                | inr other ↦ rw (loop_byte read f n tot out p ch t e' other) (
                    loop-Noted f n (if ltb tot (n - 1) then tot + 1 else tot) (room n tot out ch)
                      before (record p { kernel = next read p }) h1)
              ]
        ]
    | inr (x, e) ↦ elim (Bool-cases (x == eintr)) [
      | inl same ↦
          let e' : reply read p ≡ fail eintr = ground arith in
          rw (loop_interrupted read f n tot out p e') (
            loop-Noted f n tot out before (record { errno = eintr; kernel = next read p })
              (read_interrupted 1 p.kernel e' ∙ h))
      | inr other ↦
          let d : x ≢ eintr = ground arith in
          rw (loop_failed read f n tot out p x d e)
            (inl (refl, read_failed 1 p.kernel x e d ∙ ap mark h))
    ]
  ]

  pub read_line-Noted :
      (fuel n : ℕ) (p : Proc K) → Noted (log p.kernel) (read_line read fuel false (suc n) p)
  unfolding read_line
  read_line-Noted fuel n p =
      let e : (suc n == 0) ≡ false = ground arith in
      rw e (loop-Noted fuel (suc n) 0 [] (log p.kernel) p refl)
