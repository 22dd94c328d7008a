-- ===== src/Io/ReadLine/Correct.antt =====
-- lib/read_line.c: `readLine` against the line at the head of the input.
use my_linux_programming_int.Prelude.{
  List-cases, ℕ, zero, suc, ◌+◌, ◌-◌, ◌≤◌, ◌<◌, ◌≡◌, refl, sym, ◌∙◌, ap, ◌≢◌, ◌⊎◌, inl, inr, Bool,
  true, false, ◌||◌, Option, none, some, [], ◌∷◌, ◌++◌, append_assoc, append-nil, ltb, ◌==◌,
  if◌then◌else◌, length, take, take-fits, arith, pos, negsuc, Text, Bool-cases,
}
use my_linux_programming_int.Sys.{ok, fail, Call, Proc, eintr, Reply-cases}
use my_linux_programming_int.Io.Laws.{ReadLaws}
use my_linux_programming_int.Io.ReadLine.Rounds.{
  room, length-room, reply, next, loop_interrupted, loop_failed, loop_eof, loop_byte, loop_newline,
}
use my_linux_programming_int.Io.ReadLine.{Line, read_line_loop, read_line}

-- The bytes up to the first newline, which is included, or up to the end.
unfoldable pub line : Text → Text
line [] = []
line (c ∷ s) = let rest = line s in if c == b'\n' then c ∷ [] else c ∷ rest

unfoldable pub after_line : Text → Text
after_line [] = []
after_line (c ∷ s) = let rest = after_line s in if c == b'\n' then s else rest

unfoldable pub has_newline : Text → Bool
has_newline [] = false
has_newline (c ∷ s) = c == b'\n' || has_newline s

-- the string in the buffer: none is stored when nothing was counted before the end of the file
abbrev pub terminated : (content s : Text) → Text
terminated [] s = if has_newline s then 0 ∷ [] else []
terminated (c ∷ t) s = (c ∷ t) ++ 0 ∷ []

module _ (ch : ℕ) (s : Text) (other : (ch == b'\n') ≡ false) where
  line-byte : line (ch ∷ s) ≡ ch ∷ line s
  unfolding line
  line-byte = rw other

  after_line-byte : after_line (ch ∷ s) ≡ after_line s
  unfolding after_line
  after_line-byte = rw other

  terminated-byte : (content : Text) → terminated content (ch ∷ s) ≡ terminated content s
  unfolding has_newline
  terminated-byte [] = rw other
  terminated-byte (c ∷ t) = refl

terminated-newline : (content s : Text) → terminated content (b'\n' ∷ s) ≡ content ++ 0 ∷ []
unfolding has_newline
terminated-newline [] s = refl
terminated-newline (c ∷ t) s = refl

take-nil : (m : ℕ) → take {A = ℕ} m [] ≡ []
take-nil zero = refl
take-nil (suc m) = refl

take-append_short :
    (m : ℕ) (xs ys : Text) → length xs ≤ m → take m (xs ++ ys) ≡ xs ++ take (m - length xs) ys
take-append_short m [] ys h = ap (λ k. take k ys) (omega arith)
take-append_short zero (x ∷ xs) ys h = absurd (omega arith)
take-append_short (suc m) (x ∷ xs) ys h =
    rw (take-append_short m xs ys (omega arith)) (ap (λ k. x ∷ (xs ++ take k ys)) (omega arith))

take-room :
    (n : ℕ) (out : Text) (ch : ℕ) (l : Text)
    → length out ≤ n - 1
    → take (n - 1) (room n (length out) out ch ++ l) ≡ take (n - 1) (out ++ ch ∷ l)
take-room n out ch l h = elim (Bool-cases (ltb (length out) (n - 1))) [
  | inl more ↦ rw (more, append_assoc out (ch ∷ []) l) refl
  | inr full ↦
      let e : n - 1 ≡ length out = ground arith in
      let z : length out - length out ≡ 0 = omega arith in
      rw (full, take-append_short (n - 1) out l h, take-append_short (n - 1) out (ch ∷ l) h, e, z)
        refl
]

module _ {K : Type 0} (read : ℕ → Call K Text) (laws : ReadLaws read) where
  open laws use {stream, pending, got, at_end, kept, interrupted}

  -- A line was read, with `s` ahead and `out` stored before.
  pub record Done (n : ℕ) (out s : Text) (l : Line) (p : Proc K) : Type 0 where
    pub ret : l.ret ≡ pos (length (take (n - 1) (out ++ line s)))
    pub stored : l.stored ≡ terminated (take (n - 1) (out ++ line s)) s
    pub rest : stream p.kernel ≡ after_line s

  -- `read` failed, with another error than `EINTR`.
  abbrev pub Failed : Line → Proc K → Type 0
  Failed l p = (l.ret ≡ negsuc 0) × (p.errno ≢ eintr)

  abbrev pub Outcome : (n : ℕ) (out s : Text) → Option (Line × Proc K) → Type 0
  Outcome n out s none = ⊥
  Outcome n out s (some (l, p)) = Done n out s l p ⊎ Failed l p

  terminated-snoc : (out s : Text) (c : ℕ) → has_newline s ≡ true → terminated out s ≡ out ++ 0 ∷ []
  terminated-snoc [] s c h = rw h
  terminated-snoc (x ∷ out) s c h = refl

  Outcome-eof :
      (n : ℕ) (out : Text) (p : Proc K)
      → length out ≤ n - 1
      → stream p.kernel ≡ []
      → Outcome n out [] (
          some (
            (if length out == 0
                then record { ret = pos 0; stored = out }
                else record { ret = pos (length out); stored = out ++ 0 ∷ [] }),
            p,
          ))
  unfolding line after_line has_newline
  Outcome-eof n [] p h e =
      inl (record { ret = rw (take-nil (n - 1)); stored = rw (take-nil (n - 1)); rest = e })
  Outcome-eof n (x ∷ out) p h e =
      let whole : take (n - 1) ((x ∷ out) ++ []) ≡ x ∷ out =
        ap (take (n - 1)) (append-nil (x ∷ out)) ∙ take-fits (n - 1) (x ∷ out) h in
      inl (record { ret = rw whole (ground arith); stored = rw whole (ground arith); rest = e })

  Outcome-newline :
      (n : ℕ) (out s : Text) (p : Proc K)
      → length out ≤ n - 1
      → stream p.kernel ≡ s
      → Outcome n out (b'\n' ∷ s) (
          some (
            record {
              ret = pos (if ltb (length out) (n - 1) then length out + 1 else length out);
              stored = room n (length out) out b'\n' ++ 0 ∷ [];
            },
            p,
          ))
  unfolding line after_line has_newline
  Outcome-newline n out s p h e =
      let (len, fits) = length-room n out b'\n' h in
      let content : take (n - 1) (out ++ b'\n' ∷ []) ≡ room n (length out) out b'\n' =
        sym (take-room n out b'\n' [] h)
        ∙ ap (take (n - 1)) (append-nil (room n (length out) out b'\n'))
        ∙ take-fits (n - 1) (room n (length out) out b'\n') fits in
      inl (record {
        ret = rw content (ap pos (sym len));
        stored = rw (content, terminated-newline (room n (length out) out b'\n') s) refl;
        rest = e;
      })

  Outcome-byte :
      (n : ℕ) (out s : Text) (ch : ℕ) (r : Option (Line × Proc K))
      → length out ≤ n - 1
      → (ch == b'\n') ≡ false
      → Outcome n (room n (length out) out ch) s r
      → Outcome n out (ch ∷ s) r
  Outcome-byte n out s ch none h c o = o
  Outcome-byte n out s ch (some (l, p)) h c (inr failed) = inr failed
  Outcome-byte n out s ch (some (l, p)) h c (inl d) =
      let e = take-room n out ch (line s) h in
      inl (record {
        ret = rw (line-byte ch s c, ← e) d.ret;
        stored =
            rw
              (
                line-byte ch s c,
                ← e,
                terminated-byte ch s c (take (n - 1) (room n (length out) out ch ++ line s)),
              )
              d.stored;
        rest = rw (after_line-byte ch s c) d.rest;
      })

  loop_lem :
      (fuel n : ℕ) (out : Text) (p : Proc K)
      → length out ≤ n - 1
      → length (stream p.kernel) + pending p.kernel < fuel
      → Outcome n out (stream p.kernel) (read_line_loop read fuel n (length out) out p)
  loop_lem zero n out p fits enough = absurd (omega arith)
  loop_lem (suc f) n out p fits enough = elim (Reply-cases (reply read p)) [
    | inl (bs, e) ↦
        let (split, short, calm) = got 1 p.kernel bs e in
        elim (List-cases bs) [
          | inl nil ↦
              let e' : reply read p ≡ ok [] = ground arith in
              rw (at_end 1 p.kernel (omega arith) e', loop_eof read f n (length out) out p e')
                (Outcome-eof n out (record p { kernel = next read p }) fits
                  (ground (arith, at_end 1 p.kernel (omega arith) e')))
          | inr (ch, t, cons) ↦
              let e' : reply read p ≡ ok (ch ∷ []) = ground (arith) in
              let head : stream p.kernel ≡ ch ∷ stream (next read p) = ground arith in
              rw head (elim (Bool-cases (ch == b'\n')) [
                | inl nl ↦
                    let c : ch ≡ b'\n' = ground arith in
                    let e'' : reply read p ≡ ok (b'\n' ∷ []) = rw (← c) e' in
                    rw (c, loop_newline read f n (length out) out p [] e'')
                      (Outcome-newline n out (stream (next read p))
                        (record p { kernel = next read p }) fits refl)
                | inr other ↦ rw (loop_byte read f n (length out) out p ch [] e' other) (
                    Outcome-byte n out (stream (next read p)) ch _ fits other (
                      let (len, small) = length-room n out ch fits in
                      rw (← len) (
                        loop_lem f n (room n (length out) out ch)
                          (record p { kernel = next read p }) small
                          (omega (arith, ap (length {A = ℕ}) head)))))
              ])
        ]
    | inr (x, e) ↦ elim (Bool-cases (x == eintr)) [
      | inl same ↦
          let e' : reply read p ≡ fail eintr = ground arith in
          rw (loop_interrupted read f n (length out) out p e', ← kept 1 p.kernel eintr e')
            (loop_lem f n out (record { errno = eintr; kernel = next read p }) fits
              (omega
                (arith, interrupted 1 p.kernel e', ap (length {A = ℕ}) (kept 1 p.kernel eintr e'))))
      | inr other ↦
          rw (loop_failed read f n (length out) out p x (ground arith) e) (inr (refl, ground arith))
    ]
  ]

  -- With fuel for the bytes and the interruptions that are ahead, and a buffer, `readLine` ends. It
  -- fails with an error other than `EINTR`, or it returns the length of the head of the next line
  -- that has room beside the terminator, has stored that head and the terminator (nothing, where
  -- the count is 0 at the end of the input), and has consumed exactly that line.
  pub read_line_lem :
      (fuel n : ℕ) (p : Proc K)
      → 0 < n
      → length (stream p.kernel) + pending p.kernel < fuel
      → Outcome n [] (stream p.kernel) (read_line read fuel false n p)
  unfolding read_line
  read_line_lem fuel n p pos_n enough =
      let e : (n == 0) ≡ false = ground arith in rw e (loop_lem fuel n [] p (omega arith) enough)
