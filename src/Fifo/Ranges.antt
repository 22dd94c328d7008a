-- ===== src/Fifo/Ranges.antt =====
-- fifo_seqnum_server.c: the responses that its clients are sent.
use my_linux_programming_int.Prelude.{
  ℕ, zero, suc, ◌≡◌, refl, sym, ap, ◌∙◌, ◌⊎◌, inl, inr, false, Bool-cases, Option, none, some, List,
  [], ◌∷◌, ◌++◌, append-nil, append_assoc, ◌==◌, ℤ, pos, Text, codes,
}
use my_linux_programming_int.Sys.{Call, Proc, ok, fail, sys, sys-kernel}
use my_linux_programming_int.Program.{Prog, Exit, err_exit, bind_result, pure, ◌>>◌, attempt, need}
use my_linux_programming_int.Program.After.{After, After-bind, After-need, After-attempt}
use my_linux_programming_int.Fifo.{
  Request, FifoApi, eexist, client_fifo, no_server_fifo, no_client_fifo, respond, on_read, serve,
  opened, made_fifo, main,
}
use my_linux_programming_int.Fifo.Replay.{
  Event, asked, opened_fifo, wrote, behind, total, answers, Disjoint, fits, fits-cases, total-snoc,
  answers-snoc,
}

-- What the server relies on: `events` are those so far, in order; the other calls are none.
pub record FifoLaws {K : Type 0} (os : FifoApi K) : Type 0 where
  pub events : K → List Event
  pub umask_kept : (k : K) → events (os.clear_umask k) ≡ events k
  pub mkfifo_kept : (k : K) → events (os.mkfifo k).1 ≡ events k
  pub open_read_kept : (k : K) → events (os.open_read k).1 ≡ events k
  pub open_write_kept : (k : K) → events (os.open_write k).1 ≡ events k
  pub signal_kept : (k : K) → events (os.ignore_sigpipe k).1 ≡ events k
  pub read_whole :
      (fd : ℕ) (k : K) (req : Request)
      → (os.read_request fd k).0 ≡ ok (some req)
      → events (os.read_request fd k).1 ≡ events k ++ asked req ∷ []
  pub read_partial :
      (fd : ℕ) (k : K)
      → (os.read_request fd k).0 ≡ ok none
      → events (os.read_request fd k).1 ≡ events k
  pub read_failed :
      (fd : ℕ) (k : K) (e : ℕ)
      → (os.read_request fd k).0 ≡ fail e
      → events (os.read_request fd k).1 ≡ events k
  pub open_ok :
      (path : Text) (k : K) (fd : ℕ)
      → (os.open_client path k).0 ≡ ok fd
      → events (os.open_client path k).1 ≡ events k ++ opened_fifo path fd ∷ []
  pub open_failed :
      (path : Text) (k : K) (e : ℕ)
      → (os.open_client path k).0 ≡ fail e
      → events (os.open_client path k).1 ≡ events k
  pub written :
      (fd : ℕ) (n : ℤ) (k : K) → events (os.write_response fd n k).1 ≡ events k ++ wrote fd n ∷ []
  pub close_kept : (fd : ℕ) (k : K) → events (os.close fd k).1 ≡ events k

module _ {K : Type 0} (os : FifoApi K) (laws : FifoLaws os) (k0 : K) where
  open laws use {
    events, umask_kept, mkfifo_kept, open_read_kept, open_write_kept, signal_kept, read_whole,
    read_partial, read_failed, open_ok, open_failed, written, close_kept,
  }

  -- Since `k0`, these requests have been answered from 0 on, in order, and `tail` has come behind.
  abbrev pub Answered : (l : List (Request × ℕ)) (tail : List Event) → K → Type 0
  Answered l tail k = events k ≡ (events k0 ++ answers (pos 0) l) ++ tail

  -- The requests so far have been answered, `seq` is the counter behind them, and their ranges are
  -- disjoint unless a length was negative or the counter too large for an `int`.
  abbrev pub Counts : (seq : ℤ) → K → Type 0
  Counts seq k =
      (l : List (Request × ℕ)) × Answered l [] k
      × (seq ≡ total (pos 0) l)
      × ((fits (pos 0) l ≡ false) ⊎ Disjoint (pos 0) l)

  -- It gives up before the first request, or on one behind those answered, if it cannot open the FIFO
  -- of the client.
  abbrev pub GivesUp : Exit → K → Type 0
  GivesUp e k =
      (events k ≡ events k0)
      ⊎ ((l : List (Request × ℕ)) × (req : Request) × Answered l (asked req ∷ []) k
          × (e ≡ no_client_fifo req))

  module _ (seq : ℤ) (req : Request) (l : List (Request × ℕ)) (count : seq ≡ total (pos 0) l) where
    abbrev path : Text
    path = client_fifo req.pid

    -- the log with the answer
    longer :
        (fd : ℕ) (k : K)
        → Answered l (asked req ∷ opened_fifo path fd ∷ wrote fd seq ∷ []) k
        → Counts (behind seq req) k
    longer fd k h = (
      l ++ (req, fd) ∷ [],
      h
          ∙ append_assoc (events k0) (answers (pos 0) l) _
          ∙ ap
              (λ n.
                events k0
                ++ (answers (pos 0) l ++ asked req ∷ opened_fifo path fd ∷ wrote fd n ∷ []))
              count
          ∙ ap (λ t. events k0 ++ t) (sym (answers-snoc (pos 0) l req fd))
          ∙ sym (append-nil (events k0 ++ answers (pos 0) (l ++ (req, fd) ∷ []))),
      ap (λ n. behind n req) count ∙ sym (total-snoc (pos 0) l req fd),
      fits-cases (l ++ (req, fd) ∷ []),
    )

    -- with one more event
    next :
        (tail : List Event) (e : Event) (k k1 : K)
        → Answered l tail k
        → events k1 ≡ events k ++ e ∷ []
        → Answered l (tail ++ e ∷ []) k1
    next tail e k k1 h grown =
        grown
        ∙ ap (λ t. t ++ e ∷ []) h
        ∙ append_assoc (events k0 ++ answers (pos 0) l) tail (e ∷ [])

    attempts :
        {A : Type 0} (f : Call K A) (rest : Option A → Prog K ℤ) (Left : K → Type 0) (p : Proc K)
        → Left (f p.kernel).1
        → ((r : Option A) (p1 : Proc K) → Left p1.kernel → After Counts GivesUp (rest r p1))
        → After Counts GivesUp (bind_result rest (attempt f p))
    attempts f rest Left p h behind =
        After-bind GivesUp (λ r k. Left k) Counts rest (attempt f p)
          (After-attempt GivesUp (λ r k. Left k) f p (λ a c. h) (λ e c. h)) behind

    respond-Counts :
        (p : Proc K)
        → Answered l (asked req ∷ []) p.kernel
        → After Counts GivesUp (respond os seq req p)
    unfolding respond
    respond-Counts p h =
        let Open : ℕ → K → Type 0 = λ fd k. Answered l (asked req ∷ opened_fifo path fd ∷ []) k in
        After-bind GivesUp Open Counts _ (need (os.open_client path) (no_client_fifo req) p)
          (After-need GivesUp Open (os.open_client path) (no_client_fifo req) p
            (λ fd c.
              next (asked req ∷ []) (opened_fifo path fd) p.kernel _ h (open_ok path p.kernel fd c))
            (λ e c. inr (l, req, open_failed path p.kernel e c ∙ h, refl)))
          (λ fd p1 h1.
            let Full : K → Type 0 =
              λ k. Answered l (asked req ∷ opened_fifo path fd ∷ wrote fd seq ∷ []) k in
            let h2 =
              next (asked req ∷ opened_fifo path fd ∷ []) (wrote fd seq) p1.kernel _ h1
                (written fd seq p1.kernel) in
            let done : Prog K ℤ = pure (behind seq req) in
            attempts (os.write_response fd seq) (λ r. attempt (os.close fd) >> done) Full p1 h2
              (λ r p2 h3.
                attempts (os.close fd) (λ r. done) Full p2 (close_kept fd p2.kernel ∙ h3)
                  (λ r p3 h4. longer fd p3.kernel h4)))

  still : (seq : ℤ) (k k1 : K) → events k1 ≡ events k → Counts seq k → Counts seq k1
  still seq k k1 e (l, log, count, disjoint) = (l, e ∙ log, count, disjoint)

  -- what read() has left
  abbrev Read : (seq : ℤ) → Option (Option Request) → K → Type 0
  Read seq none k = Counts seq k
  Read seq (some none) k = Counts seq k
  Read seq (some (some req)) k =
      (l : List (Request × ℕ)) × Answered l (asked req ∷ []) k × (seq ≡ total (pos 0) l)

  reads :
      (fd : ℕ) (seq : ℤ) (k : K) (r : Option Request)
      → (os.read_request fd k).0 ≡ ok r
      → Counts seq k
      → Read seq (some r) (os.read_request fd k).1
  reads fd seq k none c h = still seq k _ (read_partial fd k c) h
  reads fd seq k (some req) c (l, log, count, d) =
      (l, read_whole fd k req c ∙ ap (λ t. t ++ asked req ∷ []) (log ∙ append-nil _), count)

  on_read-Counts :
      (seq : ℤ) (r : Option (Option Request)) (p : Proc K)
      → Read seq r p.kernel
      → After Counts GivesUp (on_read os seq r p)
  on_read-Counts seq none p h = h
  on_read-Counts seq (some none) p h = h
  on_read-Counts seq (some (some req)) p (l, log, count) = respond-Counts seq req l count p log

  serve-Counts :
      (rounds fd : ℕ) (seq : ℤ) (p : Proc K)
      → Counts seq p.kernel
      → After Counts GivesUp (serve os rounds fd seq p)
  unfolding serve
  serve-Counts zero fd seq p h = h
  serve-Counts (suc rounds) fd seq p h =
      After-bind GivesUp (Read seq) Counts _ (attempt (os.read_request fd) p)
        (After-attempt GivesUp (Read seq) (os.read_request fd) p
          (λ r c. reads fd seq p.kernel r c h)
          (λ e c. still seq p.kernel _ (read_failed fd p.kernel e c) h))
        (λ r p1 h1.
          After-bind GivesUp Counts Counts (serve os rounds fd) (on_read os seq r p1)
            (on_read-Counts seq r p1 h1) (λ n p2 h2. serve-Counts rounds fd n p2 h2))

  -- nothing has happened
  abbrev Quiet : {A : Type 0} → A → K → Type 0
  Quiet a k = events k ≡ events k0

  needs :
      {A B : Type 0} (f : Call K A) (e : Exit) (rest : A → Prog K B) (Returns : B → K → Type 0)
      (p : Proc K)
      → events p.kernel ≡ events k0
      → ((k : K) → events (f k).1 ≡ events k)
      → ((a : A) (p1 : Proc K) → events p1.kernel ≡ events k0 → After Returns GivesUp (rest a p1))
      → After Returns GivesUp (bind_result rest (need f e p))
  needs f e rest Returns p h kept behind =
      let h1 = kept p.kernel ∙ h in
      After-bind GivesUp (λ a k. Quiet a k) Returns rest (need f e p)
        (After-need GivesUp (λ a k. Quiet a k) f e p (λ a c. h1) (λ x c. inl h1)) behind

  opened-Counts :
      (rounds : ℕ) (p : Proc K)
      → events p.kernel ≡ events k0
      → After Counts GivesUp (opened os rounds p)
  unfolding opened
  opened-Counts rounds p h =
      needs os.open_read no_server_fifo _ Counts p h open_read_kept (λ fd p1 h1.
        needs os.open_write no_server_fifo _ Counts p1 h1 open_write_kept (λ d p2 h2.
          needs os.ignore_sigpipe (err_exit (codes "signal")) _ Counts p2 h2 signal_kept (λ u p3 h3.
            serve-Counts rounds fd (pos 0) p3
              ([], h3 ∙ sym (append-nil _) ∙ sym (append-nil _), refl, inr tt))))

  made_fifo-Counts :
      (rounds : ℕ) (r : Option (Unit {0})) (p : Proc K)
      → events p.kernel ≡ events k0
      → After Counts GivesUp (made_fifo os rounds r p)
  made_fifo-Counts rounds (some u) p h = opened-Counts rounds p h
  made_fifo-Counts rounds none p h = elim (Bool-cases (p.errno == eexist)) [
    | inl old ↦ rw old (opened-Counts rounds p h)
    | inr other ↦ rw other (inl h)
  ]

-- `main`, for any number of rounds, on any replies of the system calls: each whole request is answered
-- in order, by opening the FIFO that its client's process ID names and writing `seqNum` to it, which is
-- 0 at first and moves by the request's length, as an `int`; no other response is written. The
-- ranges given out are disjoint, unless a length is negative or `seqNum` passes the greatest `int`.
-- The server only ends before the first request, or where it cannot open the FIFO of a client.
pub main-Ranges :
    {K : Type 0} (os : FifoApi K) (laws : FifoLaws os) (rounds : ℕ) (p : Proc K)
    → After (Counts os laws p.kernel) (GivesUp os laws p.kernel) (main os rounds p)
unfolding main
main-Ranges os laws rounds p =
    let start = record p { kernel = os.clear_umask p.kernel } in
    let made = sys os.mkfifo start in
    made_fifo-Counts os laws p.kernel rounds made.0 made.1 (
      ap laws.events (sys-kernel os.mkfifo start)
      ∙ (laws.mkfifo_kept start.kernel ∙ laws.umask_kept p.kernel))
