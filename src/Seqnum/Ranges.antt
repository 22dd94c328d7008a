-- ===== src/Seqnum/Ranges.antt =====
-- is_seqnum_sv.c: the server gives out consecutive ranges of numbers, modulo 2 ^ 32.
use my_linux_programming_int.Prelude.{
  c_string, ℕ, zero, suc, ◌+◌, ◌<◌, ◌≡◌, refl, sym, ap, ◌∙◌, true, false, Bool-cases, ◌⊎◌, inl, inr,
  some, List, [], ◌∷◌, ◌++◌, append_assoc, append-nil, length, take, ltb_ℤ, ℤ, pos, negsuc,
  Option-cases, if◌then◌else◌, Text, arith,
}
use mathlib.Core.Path.{subst}
use my_linux_programming_int.Sys.{Proc, Reply-cases}
use my_linux_programming_int.Program.{Exit, Prog, bind_result, pure, ◌>>◌, attempt}
use my_linux_programming_int.Program.After.{After, After-bind, After-attempt, After-map}
use my_linux_programming_int.Io.ReadLine.{Line, read_line}
use my_linux_programming_int.Io.ReadLine.Correct
use my_linux_programming_int.Io.ReadLine.Correct.{read_line_lem, line, terminated}
use my_linux_programming_int.Io.ReadLine.Noted.{Noted, read_line-Noted}
use my_linux_programming_int.Clib.Strtol.{atoi}
use my_linux_programming_int.Seqnum.{
  SeqApi, int_len, seq_num_str, skip, grant, answer, handle, serve,
}
use my_linux_programming_int.Seqnum.Log.{
  Event, accepted, sent, broken, SeqLaws, asked, reply, move, Client, response, behind, exchange,
  exchanges, total,
}

-- The server does not end.
abbrev pub Never : {K : Type 0} → Exit → K → Type 0
Never e k = ⊥

module _ {K : Type 0} (os : SeqApi K) (fuel : ℕ) (laws : SeqLaws os fuel) where
  open laws use {events, reads, short, accept_ok, accept_failed, read_notes, written, close_kept}

  -- `tail` has happened since `before`, and the counter has come to `end`.
  abbrev pub Comes : (before tail : List Event) (end seq : ℕ) → K → Type 0
  Comes before tail end seq k = (events k ≡ before ++ tail) × (seq ≡ end)

  closes :
      (seq cfd : ℕ) (log : List Event) (p : Proc K)
      → events p.kernel ≡ log
      → After
          (λ n k. (events k ≡ log) × (n ≡ seq))
          Never
          (bind_result (λ r. pure seq) (attempt (os.sockets.close cfd) p))
  closes seq cfd log p h =
      let h1 = close_kept cfd p.kernel ∙ h in
      After-bind Never (λ r k. events k ≡ log) (λ n k. (events k ≡ log) × (n ≡ seq)) (λ r. pure seq)
        (attempt (os.sockets.close cfd) p)
        (After-attempt Never (λ r k. events k ≡ log) (os.sockets.close cfd) p (λ u c. h1)
          (λ e c. h1))
        (λ r p1 h2. (h2, refl))

  skip-Comes :
      (seq cfd : ℕ) (p : Proc K) → After (Comes (events p.kernel) [] seq) Never (skip os seq cfd p)
  skip-Comes seq cfd p =
      closes seq cfd (events p.kernel ++ []) p (sym (append-nil (events p.kernel)))

  grant-Comes :
      (seq cfd n : ℕ) (p : Proc K)
      → After
          (Comes (events p.kernel) (reply cfd seq (pos (suc n))) (move seq (pos (suc n))))
          Never
          (grant os seq cfd (suc n) p)
  unfolding grant
  grant-Comes seq cfd n p =
      let log = events p.kernel ++ sent cfd (seq_num_str seq) ∷ [] in
      let h = written cfd (seq_num_str seq) p.kernel in
      let write = os.write cfd (seq_num_str seq) in
      let end = move seq (pos (suc n)) in
      After-bind Never (λ r k. events k ≡ log)
        (Comes (events p.kernel) (reply cfd seq (pos (suc n))) end)
        (λ r. attempt (os.sockets.close cfd) >> pure end) (attempt write p)
        (After-attempt Never (λ r k. events k ≡ log) write p (λ m c. h) (λ e c. h))
        (λ r p1 h1. closes end cfd log p1 h1)

  answer-Comes :
      (seq cfd : ℕ) (z : ℤ) (p : Proc K)
      → After (Comes (events p.kernel) (reply cfd seq z) (move seq z)) Never (answer os seq cfd z p)
  unfolding answer
  answer-Comes seq cfd (pos (suc n)) p = grant-Comes seq cfd n p
  answer-Comes seq cfd (pos zero) p = skip-Comes seq cfd p
  answer-Comes seq cfd (negsuc n) p = skip-Comes seq cfd p

  positive : (z : ℤ) (m : ℕ) → z ≡ pos m → z ≡ negsuc 0 → ⊥
  positive z m a b = cc

  -- what the server does with a line
  abbrev on_line : (seq cfd : ℕ) → Line → Prog K ℕ
  on_line seq cfd l =
      if ltb_ℤ (pos 0) l.ret then answer os seq cfd (atoi (c_string l.stored)) else skip os seq cfd

  -- One client is handled, whether its reads fail or not.
  abbrev pub Handled : (seq cfd : ℕ) (ahead : Text) (before : List Event) → ℕ → K → Type 0
  Handled seq cfd ahead before next k =
      Comes before (broken cfd ∷ []) seq next k
      ⊎ Comes before (reply cfd seq (asked ahead)) (move seq (asked ahead)) next k

  line-Comes :
      (seq cfd : ℕ) (ahead : Text) (l : Line) (p : Proc K)
      → Correct.Done (os.read cfd) (reads cfd) int_len [] ahead l p
      → After
          (Comes (events p.kernel) (reply cfd seq (asked ahead)) (move seq (asked ahead)))
          Never
          (on_line seq cfd l p)
  unfolding asked
  line-Comes seq cfd ahead l p d =
      elim (Bool-cases (ltb_ℤ (pos 0) (pos (length (take 29 (line ahead)))))) [
        | inl some_ ↦
            rw (d.ret, d.stored, some_)
              (answer-Comes seq cfd (atoi (c_string (terminated (take 29 (line ahead)) ahead))) p)
        | inr none_ ↦ rw (d.ret, none_) (skip-Comes seq cfd p)
      ]

  failed-Comes :
      (seq cfd : ℕ) (before : List Event) (l : Line) (p : Proc K)
      → l.ret ≡ negsuc 0
      → events p.kernel ≡ before
      → After (Comes before [] seq) Never (on_line seq cfd l p)
  failed-Comes seq cfd before l p e h = rw (e, ← h) (skip-Comes seq cfd p)

  handled :
      (seq cfd : ℕ) (p : Proc K) (l : Line) (p1 : Proc K)
      → let ahead = (reads cfd).stream p.kernel in
        Correct.Outcome (os.read cfd) (reads cfd) int_len [] ahead (some (l, p1))
        → Noted
            (os.read cfd)
            events
            (λ t. t ++ broken cfd ∷ [])
            (read_notes cfd)
            (events p.kernel)
            (some (l, p1))
        → After (Handled seq cfd ahead (events p.kernel)) Never (on_line seq cfd l p1)
  handled seq cfd p l p1 (inl d) (inl (ret, log)) = absurd (positive l.ret _ d.ret ret)
  handled seq cfd p l p1 (inr f) (inr (m, ret, log)) = absurd (positive l.ret m ret f.0)
  handled seq cfd p l p1 (inl d) (inr (m, ret, log)) =
      let ahead = (reads cfd).stream p.kernel in
      let z = asked ahead in
      After-map Never (Comes (events p1.kernel) (reply cfd seq z) (move seq z))
        (Handled seq cfd ahead (events p.kernel)) (on_line seq cfd l p1)
        (line-Comes seq cfd ahead l p1 d)
        (λ n k h. inr (h.0 ∙ ap (λ t. t ++ reply cfd seq z) log, h.1))
  handled seq cfd p l p1 (inr f) (inl (ret, log)) =
      let ahead = (reads cfd).stream p.kernel in
      let before = events p.kernel ++ broken cfd ∷ [] in
      After-map Never (Comes before [] seq) (Handled seq cfd ahead (events p.kernel))
        (on_line seq cfd l p1) (failed-Comes seq cfd before l p1 ret log)
        (λ n k h. inl (h.0 ∙ append-nil before, h.1))

  pub handle-Handled :
      (seq cfd : ℕ) (p : Proc K)
      → let ahead = (reads cfd).stream p.kernel in
        length ahead + (reads cfd).pending p.kernel < fuel
        → After (Handled seq cfd ahead (events p.kernel)) Never (handle os fuel seq cfd p)
  unfolding handle
  handle-Handled seq cfd p enough =
      let ahead = (reads cfd).stream p.kernel in
      let read = os.read cfd in
      let line = read_line_lem read (reads cfd) fuel int_len p (omega arith) enough in
      let noted =
        read_line-Noted read events (λ t. t ++ broken cfd ∷ []) (read_notes cfd) fuel 29 p in
      elim (Option-cases (read_line read fuel false int_len p)) [
        | inl e ↦ absurd (subst (Correct.Outcome read (reads cfd) int_len [] ahead) e line)
        | inr ((l, p1), e) ↦ rw e (
            handled seq cfd p l p1
              (subst (Correct.Outcome read (reads cfd) int_len [] ahead) e line)
              (subst
                (Noted read events (λ t. t ++ broken cfd ∷ []) (read_notes cfd) (events p.kernel)) e
                noted))
      ]

  -- `l` has been served since `start`, with the counter from `seq` to `end`.
  abbrev pub Served : (seq : ℕ) (start : List Event) (end : ℕ) → K → Type 0
  Served seq start end k =
      (l : List Client) × (events k ≡ start ++ exchanges seq l) × (end ≡ total seq l)

  joined :
      (c : Client) (start : List Event) (seq next : ℕ) (k0 : K)
      → events k0 ≡ (start ++ accepted c.cfd c.ahead ∷ []) ++ response seq c
      → next ≡ behind seq c
      → (end : ℕ) (k : K) (l : List Client) → events k ≡ events k0 ++ exchanges next l
      → end ≡ total next l
      → Served seq start end k
  joined c start seq next k0 log same end k l rest count =
      let head = accepted c.cfd c.ahead ∷ [] in
      (
        c ∷ l,
        rest
            ∙ ap (λ n. events k0 ++ exchanges n l) same
            ∙ ap (λ t. t ++ exchanges (behind seq c) l)
                (log ∙ append_assoc start head (response seq c))
            ∙ append_assoc start (exchange seq c) (exchanges (behind seq c) l),
        count ∙ ap (λ n. total n l) same,
      )

  -- one client before the others
  preceded :
      (seq cfd : ℕ) (ahead : Text) (start : List Event) (next : ℕ) (k0 : K)
      → Handled seq cfd ahead (start ++ accepted cfd ahead ∷ []) next k0
      → (end : ℕ) (k : K) → Served next (events k0) end k
      → Served seq start end k
  preceded seq cfd ahead start next k0 (inl (log, same)) end k (l, rest, count) =
      let c : Client = record { cfd = cfd; ahead = ahead; fails = true } in
      joined c start seq next k0 log same end k l rest count
  preceded seq cfd ahead start next k0 (inr (log, same)) end k (l, rest, count) =
      let c : Client = record { cfd = cfd; ahead = ahead; fails = false } in
      joined c start seq next k0 log same end k l rest count

  -- The loop of the server, for any number of rounds, with fuel for what a connection delivers, on any
  -- replies of the system calls: it does not end, and all that happens on the connections is, for one
  -- after another, that it is accepted, and that the counter, in its print as an `int`, is written
  -- to it if and only if its first line asks for one number or more, and no read of it fails. The
  -- counter then moves on by as many as that line asks for, modulo 2 ^ 32, and else stays.
  pub serve-Served :
      (rounds lfd seq : ℕ) (p : Proc K)
      → After (Served seq (events p.kernel)) Never (serve os rounds fuel lfd seq p)
  unfolding serve
  serve-Served zero lfd seq p = ([], sym (append-nil (events p.kernel)), refl)
  serve-Served (suc rounds) lfd seq p =
      let k1 = (os.accept lfd p.kernel).1 in
      elim (Reply-cases (os.accept lfd p.kernel).0) [
        | inr (e, c) ↦
            let p1 : Proc K = record { errno = e; kernel = k1 } in
            rw c (
              subst (λ t. After (Served seq t) Never (serve os rounds fuel lfd seq p1))
                (accept_failed lfd p.kernel e c) (serve-Served rounds lfd seq p1))
        | inl (cfd, c) ↦
            let p1 : Proc K = record p { kernel = k1 } in
            let ahead = (reads cfd).stream k1 in
            let start = events p.kernel in
            let log = accept_ok lfd cfd p.kernel c in
            rw c (
              After-bind Never (Handled seq cfd ahead (events k1)) (Served seq start)
                (serve os rounds fuel lfd) (handle os fuel seq cfd p1)
                (handle-Handled seq cfd p1 (short lfd cfd p.kernel c))
                (λ next p2 h.
                  After-map Never (Served next (events p2.kernel)) (Served seq start)
                    (serve os rounds fuel lfd next p2) (serve-Served rounds lfd next p2)
                    (preceded seq cfd ahead start next p2.kernel
                      (subst (λ t. Handled seq cfd ahead t next p2.kernel) log h))))
      ]
