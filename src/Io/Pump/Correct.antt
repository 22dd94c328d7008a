-- ===== src/Io/Pump/Correct.antt =====
-- What the transfer loop has moved when it ends.
use my_linux_programming_int.Prelude.{
  ℕ, zero, suc, ◌≤◌, ◌<◌, ◌≡◌, refl, sym, ◌∙◌, ap, ◌≢◌, inl, inr, Option, none, some, [], ◌∷◌, ◌++◌,
  append_assoc, append-nil, ◌==◌, length, length-append, take, drop, drop-fits, length-drop,
  take-append-drop, arith, Text, Bool-cases, List-cases,
}
use mathlib.Core.Path.{ap₂}
use my_linux_programming_int.Sys.{Reply, ok, fail, Call, Proc, Reply-cases}
use my_linux_programming_int.Io.Laws.{ReadLaws, WriteLaws}
use my_linux_programming_int.Io.Pump.{End, eof, read_error, write_error, pump}

-- The two descriptors are independent: reading one does not show on the other, and conversely.
pub record PumpLaws {K : Type 0} (read : ℕ → Call K Text) (write : Text → Call K ℕ) : Type 0 where
  pub reads : ReadLaws read
  pub open reads use {stream, got, at_end}
  pub writes : WriteLaws write
  pub open writes use {sink, wrote}
  pub read_sink : (n : ℕ) (k : K) → sink (read n k).1 ≡ sink k
  pub write_stream : (bs : Text) (k : K) → stream (write bs k).1 ≡ stream k

module _ {K : Type 0} (read : ℕ → Call K Text) (write : Text → Call K ℕ) (f size : ℕ)
    (p : Proc K) where
  abbrev reply : Reply Text
  reply = (read size p.kernel).0

  abbrev next : K
  next = (read size p.kernel).1

  pub pump_read_error :
      (x : ℕ)
      → reply ≡ fail x
      → pump read write (suc f) size p ≡ some (read_error, record { errno = x; kernel = next })
  unfolding pump
  pump_read_error x e = ground arith

  pub pump_eof :
      reply ≡ ok [] → pump read write (suc f) size p ≡ some (eof, record p { kernel = next })
  unfolding pump
  pump_eof e = ground arith

  module _ (b : ℕ) (bs : Text) (e : reply ≡ ok (b ∷ bs)) where
    abbrev answer : Reply ℕ
    answer = (write (b ∷ bs) next).0

    abbrev then_ : K
    then_ = (write (b ∷ bs) next).1

    pub pump_write_error :
        (x : ℕ)
        → answer ≡ fail x
        → pump read write (suc f) size p ≡ some (write_error, record { errno = x; kernel = then_ })
    unfolding pump
    pump_write_error x w = ground arith

    pub pump_partial :
        (m : ℕ)
        → m ≢ length (b ∷ bs)
        → answer ≡ ok m
        → pump read write (suc f) size p ≡ some (write_error, record p { kernel = then_ })
    unfolding pump
    pump_partial m d w = ground arith

    pub pump_round :
        answer ≡ ok (length (b ∷ bs))
        → pump read write (suc f) size p ≡ pump read write f size (record p { kernel = then_ })
    unfolding pump
    pump_round w = ground arith

module _ {K : Type 0} (read : ℕ → Call K Text) (write : Text → Call K ℕ)
    (laws : PumpLaws read write) where
  open laws use {stream, got, at_end, sink, wrote, reads, writes, read_sink, write_stream}

  -- By the end, what is lost between the two and what is left on the input.
  abbrev pub IsComplete : End → (lost ahead : Text) → Type 0
  IsComplete eof lost ahead = (lost ≡ []) × (ahead ≡ [])
  IsComplete read_error lost ahead = lost ≡ []
  IsComplete write_error lost ahead = Unit

  -- `all` is what the output had accepted at the start, with what was ahead on the input.
  pub record Ends (size : ℕ) (all : Text) (e : End) (p : Proc K) : Type 0 where
    pub lost : Text
    pub conserved : all ≡ sink p.kernel ++ (lost ++ stream p.kernel)
    pub complete : IsComplete e lost (stream p.kernel)
    pub block : length lost ≤ size

  abbrev pub Outcome : (size : ℕ) → Text → Option (End × Proc K) → Type 0
  Outcome size all none = ⊥
  Outcome size all (some (e, p)) = Ends size all e p

  -- what a round has moved, whatever the descriptor accepted
  round_split :
      (k k' : K) (bs t : Text) (m : ℕ)
      → stream k ≡ bs ++ t
      → sink k' ≡ sink k ++ take m bs
      → sink k ++ stream k ≡ sink k' ++ (drop m bs ++ t)
  round_split k k' bs t m s w =
      rw
        (
          s,
          w,
          append_assoc (sink k) (take m bs) (drop m bs ++ t),
          ← append_assoc (take m bs) (drop m bs) t,
          take-append-drop m bs,
        )
        refl

  module _ (all : Text) (p : Proc K) (b : ℕ) (t : Text) (size m : ℕ)
      (split : all ≡ sink p.kernel ++ stream p.kernel)
      (e : (read size p.kernel).0 ≡ ok (b ∷ t)) where
    abbrev after : K
    after = (write (b ∷ t) (read size p.kernel).1).1

    module _ (grown : sink after ≡ sink (read size p.kernel).1 ++ take m (b ∷ t)) where
      moved : all ≡ sink after ++ (drop m (b ∷ t) ++ stream after)
      moved =
          let (ahead, _, _) = got size p.kernel (b ∷ t) e in
          split
          ∙ round_split p.kernel after (b ∷ t) (stream after) m
              (ahead ∙ ap (λ s. (b ∷ t) ++ s) (sym (write_stream (b ∷ t) _)))
              (grown ∙ ap (λ s. s ++ take m (b ∷ t)) (read_sink size p.kernel))

      failed_round : (x : ℕ) → Ends size all write_error (record { errno = x; kernel = after })
      failed_round x =
          let (_, short, _) = got size p.kernel (b ∷ t) e in
          record {
            lost = drop m (b ∷ t);
            conserved = moved;
            complete = tt;
            block = omega (arith, length-drop m (b ∷ t));
          }

  shorter :
      (p : Proc K) (b : ℕ) (t : Text) (size f : ℕ)
      → (read size p.kernel).0 ≡ ok (b ∷ t)
      → length (stream p.kernel) < suc f
      → length (stream (write (b ∷ t) (read size p.kernel).1).1) < f
  shorter p b t size f e enough =
      let (ahead, _, _) = got size p.kernel (b ∷ t) e in
      let same = write_stream (b ∷ t) (read size p.kernel).1 in
      omega (
        arith,
        ap (length {A = ℕ}) ahead,
        ap (length {A = ℕ}) same,
        length-append t (stream (read size p.kernel).1),
      )

  pump_lem_at :
      (fuel size : ℕ) (all : Text) (p : Proc K)
      → 0 < size
      → all ≡ sink p.kernel ++ stream p.kernel
      → length (stream p.kernel) < fuel
      → Outcome size all (pump read write fuel size p)
  pump_lem_at zero size all p room split enough = absurd (omega arith)
  pump_lem_at (suc f) size all p room split enough =
      elim (Reply-cases (reply read write f size p)) [
        | inr (x, e) ↦ rw (pump_read_error read write f size p x e) (record {
          lost = [];
          conserved =
              split ∙ ap₂ ◌++◌ (sym (read_sink size p.kernel)) (sym (reads.kept size p.kernel x e));
          complete = refl;
          block = omega arith;
        })
        | inl (bs, e) ↦
            let (ahead, short, calm) = got size p.kernel bs e in
            elim (List-cases bs) [
              | inl nil ↦
                  let e' : reply read write f size p ≡ ok [] = e ∙ ap (λ t. ok t) nil in
                  let (same, _, _) = got size p.kernel [] e' in
                  rw (pump_eof read write f size p e') (record {
                    lost = [];
                    conserved = split ∙ ap₂ ◌++◌ (sym (read_sink size p.kernel)) same;
                    complete = (refl, sym same ∙ at_end size p.kernel room e');
                    block = omega arith;
                  })
              | inr (b, t, cons) ↦
                  let e' : reply read write f size p ≡ ok (b ∷ t) = e ∙ ap (λ u. ok u) cons in
                  let k' = then_ read write f size p b t e' in
                  elim (Reply-cases (answer read write f size p b t e')) [
                    | inr (x, w) ↦ rw (pump_write_error read write f size p b t e' x w) (
                        failed_round all p b t size 0 split e'
                          (writes.kept (b ∷ t) (next read write f size p) x w ∙ sym (append-nil _))
                          x)
                    | inl (m, w) ↦
                        let (grown, _, _) = wrote (b ∷ t) (next read write f size p) m w in
                        elim (Bool-cases (m == length (b ∷ t))) [
                          | inr part ↦
                              rw (pump_partial read write f size p b t e' m (ground arith) w)
                                (failed_round all p b t size m split e' grown p.errno)
                          | inl whole ↦
                              let fit : length (b ∷ t) ≤ m = ground arith in
                              let done = moved all p b t size m split e' grown in
                              rw (pump_round read write f size p b t e' (ground arith)) (
                                pump_lem_at f size all (record p { kernel = k' }) room
                                  (rw (drop-fits m (b ∷ t) fit) at done)
                                  (shorter p b t size f e' enough))
                        ]
                  ]
            ]
      ]

  -- With fuel for the bytes that are ahead, the loop ends. At the end of the input the output has
  -- accepted, behind what it had before, all that was ahead, in order. After a read error everything
  -- that was read has been written; after a write error at
  -- most one block, of at most `size` bytes, is lost between the two.
  pub pump_lem :
      (fuel size : ℕ) (p : Proc K)
      → 0 < size
      → length (stream p.kernel) < fuel
      → Outcome size (sink p.kernel ++ stream p.kernel) (pump read write fuel size p)
  pump_lem fuel size p room enough = pump_lem_at fuel size _ p room refl enough
