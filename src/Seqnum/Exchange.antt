-- ===== src/Seqnum/Exchange.antt =====
-- is_seqnum_sv.c with a client that sends what is_seqnum_cl.c sends: from the bytes of the request to
-- the line of the reply.
use my_linux_programming_int.Prelude.{
  c_string, ℕ, suc, ◌+◌, ◌%◌, ◌^◌, ◌≤◌, ◌<◌, ◌≡◌, refl, append_assoc, take, ap, ◌∙◌, ◌⊎◌, true,
  false, inl, inr, [], ◌∷◌, ◌++◌, ◌==◌, length, length-append, take-fits, pos, ltb_ℤ, All, arith,
  Text,
}
use my_linux_programming_int.Sys.{Proc}
use my_linux_programming_int.Program.After.{After, After-map}
use my_linux_programming_int.Io.ReadLine.Correct.{line, has_newline, terminated}
use my_linux_programming_int.Clib.Decimal.{show_int}
use my_linux_programming_int.Clib.Strtol.{int_max, starts_with_digit}
use my_linux_programming_int.Clib.Digits.{show_int-All}
use my_linux_programming_int.Clib.RoundTrip.{atoi-show_int}
use my_linux_programming_int.Seqnum.{SeqApi, seq_num_str, handle}
use my_linux_programming_int.Seqnum.Log.{sent, broken, SeqLaws, asked, reply, move}
use my_linux_programming_int.Seqnum.Ranges.{Never, Handled, handle-Handled}

-- a byte inside a line of text
abbrev IsPlain : ℕ → Type 0
IsPlain c = ((c == b'\n') ≡ false) × ((c == 0) ≡ false)

line-append : (s rest : Text) → All IsPlain s → line (s ++ b'\n' ∷ rest) ≡ s ++ b'\n' ∷ []
unfolding line
line-append [] rest h = refl
line-append (c ∷ s) rest ((h, _), hs) = rw (line-append s rest hs, h) refl

c_string-append :
    (s rest : Text) → All IsPlain s → c_string (s ++ b'\n' ∷ 0 ∷ rest) ≡ s ++ b'\n' ∷ []
c_string-append [] rest h = refl
c_string-append (c ∷ s) rest ((_, h), hs) = rw (c_string-append s rest hs, h) refl

IsPlain-digit : (n : ℕ) → IsPlain (b'0' + n % 10)
IsPlain-digit n = ground arith

has_newline-append : (s rest : Text) → has_newline (s ++ b'\n' ∷ rest) ≡ true
unfolding has_newline
has_newline-append [] rest = refl
has_newline-append (c ∷ s) rest = ground (arith, has_newline-append s rest)

terminated-append : (s t : Text) (c : ℕ) → terminated (s ++ c ∷ []) t ≡ (s ++ c ∷ []) ++ 0 ∷ []
terminated-append [] t c = refl
terminated-append (x ∷ s) t c = refl

-- the request for `n` numbers, with what may follow it
abbrev pub request : (n : ℕ) (rest : Text) → Text
request n rest = show_int (pos n) ++ b'\n' ∷ rest

module _ {K : Type 0} (os : SeqApi K) (fuel seq cfd n : ℕ) (laws : SeqLaws os fuel)
    (p : Proc K) where
  open laws use {events}

  -- The counter is sent, in its print as an `int`, and moves on by what was asked for.
  abbrev pub Answered : ℕ → K → Type 0
  Answered next k =
      (next ≡ (seq + suc n) % 2 ^ 32)
      × (events k ≡ events p.kernel ++ sent cfd (seq_num_str seq) ∷ [])

  -- A read fails, with another error than `EINTR`; nothing is sent, and the counter stays.
  abbrev pub Unread : ℕ → K → Type 0
  Unread next k = (next ≡ seq) × (events k ≡ events p.kernel ++ broken cfd ∷ [])

module _ (n : ℕ) (rest : Text) (int : suc n ≤ int_max)
    (short : length (show_int (pos (suc n))) < 29) where
  plain : All IsPlain (show_int (pos (suc n)))
  plain = show_int-All IsPlain IsPlain-digit (refl, refl) (pos (suc n))

  -- the line that is read
  taken : take 29 (line (request (suc n) rest)) ≡ show_int (pos (suc n)) ++ b'\n' ∷ []
  taken =
      ap (take 29) (line-append (show_int (pos (suc n))) rest plain)
      ∙ take-fits 29 (show_int (pos (suc n)) ++ b'\n' ∷ [])
          (omega (arith, length-append (show_int (pos (suc n))) (b'\n' ∷ [])))

  asked-request : asked (request (suc n) rest) ≡ pos (suc n)
  unfolding asked
  asked-request =
      let s = show_int (pos (suc n)) in
      let some_ : ltb_ℤ (pos 0) (pos (length (s ++ b'\n' ∷ []))) ≡ true =
        ground (arith, length-append s (b'\n' ∷ [])) in
      rw
        (
          taken,
          some_,
          terminated-append s (request (suc n) rest) b'\n',
          append_assoc s (b'\n' ∷ []) (0 ∷ []),
          c_string-append s [] plain,
        )
        (atoi-show_int (pos (suc n)) (b'\n' ∷ []) (unfold starts_with_digit in refl) (omega arith)
          (omega arith))

  module _ {K : Type 0} (os : SeqApi K) (fuel seq cfd : ℕ) (laws : SeqLaws os fuel)
      (p : Proc K) where
    open laws use {events, reads}

    -- A client has sent the decimal print of a positive `int`, of fewer than 29 digits, and a newline.
    -- With fuel for what is to be read the server, which does not end, writes the counter to it once,
    -- in its print as an `int`, and moves it on by that number, modulo 2 ^ 32; unless a read fails,
    -- with an error other than `EINTR`, and then it writes nothing and the counter stays.
    pub handle-request :
        (reads cfd).stream p.kernel ≡ request (suc n) rest
        → length ((reads cfd).stream p.kernel) + (reads cfd).pending p.kernel < fuel
        → After
            (λ next k.
              Answered os fuel seq cfd n laws p next k ⊎ Unread os fuel seq cfd n laws p next k)
            (λ e k. ⊥)
            (handle os fuel seq cfd p)
    handle-request ahead enough =
        After-map Never
          (Handled os fuel laws seq cfd ((reads cfd).stream p.kernel) (events p.kernel))
          (λ next k.
            Answered os fuel seq cfd n laws p next k ⊎ Unread os fuel seq cfd n laws p next k)
          (handle os fuel seq cfd p) (handle-Handled os fuel laws seq cfd p enough) weaken
      where
        number : asked ((reads cfd).stream p.kernel) ≡ pos (suc n)
        number = ap asked ahead ∙ asked-request

        weaken :
            (next : ℕ) (k : K)
            → Handled os fuel laws seq cfd ((reads cfd).stream p.kernel) (events p.kernel) next k
            → Answered os fuel seq cfd n laws p next k ⊎ Unread os fuel seq cfd n laws p next k
        weaken next k (inl (log, same)) = inr (same, log)
        weaken next k (inr (log, moved)) = inl (
          moved ∙ ap (move seq) number,
          log ∙ ap (λ z. events p.kernel ++ reply cfd seq z) number,
        )
