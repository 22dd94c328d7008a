-- ===== src/Io/Rdwrn/Readn.antt =====
-- lib/rdwrn.c: `readn` reads as many bytes as were asked for, or all up to the end of the file.
use my_linux_programming_int.Prelude.{
  ℕ, zero, suc, ◌+◌, ◌-◌, ◌≤◌, ◌<◌, ◌≡◌, refl, sym, ◌∙◌, ap, ◌≢◌, ◌⊎◌, inl, inr, Option, none, some,
  [], ◌++◌, append_assoc, append-nil, ◌==◌, length, length-append, take, drop, take-fits, drop-fits,
  take-append_length, drop-append_length, eq_nil_of_length, arith, pos, negsuc, Text, Bool-cases,
}
use native.Mathlib.Decide.{dec_lt}
use my_linux_programming_int.Sys.{Reply, ok, fail, Call, Proc, eintr, Reply-cases}
use my_linux_programming_int.Io.Laws.{ReadLaws}
use my_linux_programming_int.Io.Rdwrn.{Transfer, readn_loop, readn}

module _ {K : Type 0} (read : ℕ → Call K Text) (f n tot : ℕ) (out : Text) (p : Proc K) where
  abbrev reply : Reply Text
  reply = (read (n - tot) p.kernel).0

  abbrev next : K
  next = (read (n - tot) p.kernel).1

  loop_full :
      n ≤ tot
      → readn_loop read (suc f) n tot out p ≡ some (record { ret = pos tot; stored = out }, p)
  unfolding readn_loop
  loop_full h = ground arith

  loop_interrupted :
      tot < n
      → reply ≡ fail eintr
      → readn_loop read (suc f) n tot out p
        ≡ readn_loop read f n tot out (record { errno = eintr; kernel = next })
  unfolding readn_loop
  loop_interrupted h e = ground arith

  loop_failed :
      (x : ℕ)
      → tot < n
      → x ≢ eintr
      → reply ≡ fail x
      → readn_loop read (suc f) n tot out p
        ≡ some (record { ret = negsuc 0; stored = out }, record { errno = x; kernel = next })
  unfolding readn_loop
  loop_failed x h d e = ground arith

  loop_eof :
      tot < n
      → reply ≡ ok []
      → readn_loop read (suc f) n tot out p
        ≡ some (record { ret = pos tot; stored = out }, record p { kernel = next })
  unfolding readn_loop
  loop_eof h e = ground arith

  loop_bytes :
      (bs : Text)
      → tot < n
      → 0 < length bs
      → reply ≡ ok bs
      → readn_loop read (suc f) n tot out p
        ≡ readn_loop read f n (tot + length bs) (out ++ bs) (record p { kernel = next })
  unfolding readn_loop
  loop_bytes bs h m e = ground arith

module _ {K : Type 0} (read : ℕ → Call K Text) (laws : ReadLaws read) where
  open laws use {stream, pending, got, at_end, kept, interrupted}

  -- `whole` is what is ahead at the start of the call.
  pub record Done (n : ℕ) (whole : Text) (t : Transfer) (p : Proc K) : Type 0 where
    pub stored : t.stored ≡ take n whole
    pub ret : t.ret ≡ pos (length (take n whole))
    pub rest : stream p.kernel ≡ drop n whole

  abbrev pub Failed : (n : ℕ) (whole : Text) → Transfer → Proc K → Type 0
  Failed n whole t p =
      (t.ret ≡ negsuc 0)
      × (p.errno ≢ eintr)
      × (length t.stored < n)
      × (whole ≡ t.stored ++ stream p.kernel)

  abbrev pub Outcome : (n : ℕ) (whole : Text) → Option (Transfer × Proc K) → Type 0
  Outcome n whole none = ⊥
  Outcome n whole (some (t, p)) = Done n whole t p ⊎ Failed n whole t p

  loop_lem :
      (fuel n : ℕ) (out whole : Text) (p : Proc K)
      → length out ≤ n
      → whole ≡ out ++ stream p.kernel
      → length (stream p.kernel) + pending p.kernel < fuel
      → Outcome n whole (readn_loop read fuel n (length out) out p)
  loop_lem zero n out whole p fits split enough = absurd (omega arith)
  loop_lem (suc f) n out whole p fits split enough = elim (dec_lt (length out) n) [
    | no full ↦ rw (loop_full read f n (length out) out p (omega arith)) (
        let len : n ≡ length out = omega arith in
        rw (split, len)
          (inl (record {
            stored = sym (take-append_length out (stream p.kernel));
            ret = ap (λ s. pos (length {A = ℕ} s)) (sym (take-append_length out (stream p.kernel)));
            rest = sym (drop-append_length out (stream p.kernel));
          })))
    | yes more ↦ elim (Reply-cases (reply read f n (length out) out p)) [
      | inr (x, e) ↦ elim (Bool-cases (x == eintr)) [
        | inl same ↦
            let e' : reply read f n (length out) out p ≡ fail eintr = ground arith in
            let same_stream = kept (n - length out) p.kernel eintr e' in
            rw (loop_interrupted read f n (length out) out p more e') (
              loop_lem f n out whole
                (record { errno = eintr; kernel = next read f n (length out) out p }) fits
                (split ∙ ap (λ s. out ++ s) (sym same_stream))
                (omega (
                  arith,
                  interrupted (n - length out) p.kernel e',
                  ap (length {A = ℕ}) same_stream,
                )))
        | inr other ↦ rw (loop_failed read f n (length out) out p x more (ground arith) e) (
            inr (
              refl,
              ground arith,
              more,
              split ∙ ap (λ s. out ++ s) (sym (kept (n - length out) p.kernel x e)),
            ))
      ]
      | inl (bs, e) ↦
          let (got_split, short, calm) = got (n - length out) p.kernel bs e in
          elim (dec_lt 0 (length bs)) [
            | no nil ↦
                let bs_nil = eq_nil_of_length bs (omega arith) in
                let e' : reply read f n (length out) out p ≡ ok [] = e ∙ ap (λ b. ok b) bs_nil in
                let ended = at_end (n - length out) p.kernel (omega arith) e' in
                let all : whole ≡ out = split ∙ ap (λ s. out ++ s) ended ∙ append-nil out in
                rw (loop_eof read f n (length out) out p more e', all)
                  (inl (record {
                    stored = sym (take-fits n out fits);
                    ret = ap (λ s. pos (length {A = ℕ} s)) (sym (take-fits n out fits));
                    rest =
                        sym (got (n - length out) p.kernel [] e').0
                        ∙ ended
                        ∙ sym (drop-fits n out fits);
                  }))
            | yes some_bytes ↦
                rw
                  (
                    loop_bytes read f n (length out) out p bs more some_bytes e,
                    ← length-append out bs,
                  )
                  (loop_lem f n (out ++ bs) whole
                    (record p { kernel = next read f n (length out) out p })
                    (omega (arith, length-append out bs))
                    (split ∙ ap (λ s. out ++ s) got_split ∙ sym (append_assoc out bs _))
                    (omega (
                      arith,
                      ap (length {A = ℕ}) got_split,
                      length-append bs (stream (next read f n (length out) out p)),
                    )))
          ]
    ]
  ]

  -- With fuel for the bytes and the interruptions that are ahead, `readn` ends. It fails with an
  -- error other than `EINTR`, having stored what it took from the input, fewer than `n` bytes; or it
  -- returns the number of bytes stored, which are the next `n` of the input, or all that are left.
  pub readn_lem :
      (fuel n : ℕ) (p : Proc K)
      → length (stream p.kernel) + pending p.kernel < fuel
      → Outcome n (stream p.kernel) (readn read fuel n p)
  unfolding readn
  readn_lem fuel n p enough = loop_lem fuel n [] (stream p.kernel) p (omega arith) refl enough
