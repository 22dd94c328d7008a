-- ===== src/Io/Rdwrn/Writen.antt =====
-- lib/rdwrn.c: `writen` hands the whole buffer over, or reports an error.
use my_linux_programming_int.Prelude.{
  ℕ, zero, suc, ◌+◌, ◌≤◌, ◌<◌, ◌≡◌, refl, sym, ◌∙◌, ap, ◌≢◌, ◌⊎◌, inl, inr, Option, none, some, [],
  ◌++◌, append_assoc, append-nil, ◌==◌, length, take, drop, take-append-drop, length-drop, arith, ℤ,
  pos, negsuc, Text, Bool-cases, eq_nil_of_length,
}
use native.Mathlib.Decide.{dec_lt}
use my_linux_programming_int.Sys.{Reply, ok, fail, Call, Proc, eintr, Reply-cases}
use my_linux_programming_int.Io.Laws.{WriteLaws}
use my_linux_programming_int.Io.Rdwrn.{writen_loop, writen}

module _ {K : Type 0} (write : Text → Call K ℕ) (f n tot : ℕ) (rest : Text) (p : Proc K) where
  abbrev reply : Reply ℕ
  reply = (write rest p.kernel).0

  abbrev next : K
  next = (write rest p.kernel).1

  loop_full : n ≤ tot → writen_loop write (suc f) n tot rest p ≡ some (pos tot, p)
  unfolding writen_loop
  loop_full h = ground arith

  loop_interrupted :
      tot < n
      → reply ≡ fail eintr
      → writen_loop write (suc f) n tot rest p
        ≡ writen_loop write f n tot rest (record { errno = eintr; kernel = next })
  unfolding writen_loop
  loop_interrupted h e = ground arith

  loop_failed :
      (x : ℕ)
      → tot < n
      → x ≢ eintr
      → reply ≡ fail x
      → writen_loop write (suc f) n tot rest p
        ≡ some (negsuc 0, record { errno = x; kernel = next })
  unfolding writen_loop
  loop_failed x h d e = ground arith

  loop_none :
      tot < n
      → reply ≡ ok 0
      → writen_loop write (suc f) n tot rest p ≡ some (negsuc 0, record p { kernel = next })
  unfolding writen_loop
  loop_none h e = ground arith

  loop_bytes :
      (m : ℕ)
      → tot < n
      → 0 < m
      → reply ≡ ok m
      → writen_loop write (suc f) n tot rest p
        ≡ writen_loop write f n (tot + m) (drop m rest) (record p { kernel = next })
  unfolding writen_loop
  loop_bytes m h q e = ground arith

regroup :
    (before now rest : Text) (m : ℕ)
    → now ≡ before ++ take m rest
    → before ++ rest ≡ now ++ drop m rest
regroup before now rest m e =
    rw (e, append_assoc before (take m rest) (drop m rest), take-append-drop m rest) refl

module _ {K : Type 0} (write : Text → Call K ℕ) (laws : WriteLaws write) where
  open laws use {sink, pending, wrote, kept, interrupted}

  -- The whole buffer has been accepted, in order.
  abbrev pub Done : (n : ℕ) (whole : Text) → ℤ → Proc K → Type 0
  Done n whole r p = (r ≡ pos n) × (sink p.kernel ≡ whole)

  -- An error other than an interruption; what was accepted is a head of what should be.
  abbrev pub Failed : (whole : Text) → ℤ → Proc K → Type 0
  Failed whole r p = (r ≡ negsuc 0) × (t : Text) × (whole ≡ sink p.kernel ++ t) × (t ≢ [])

  abbrev pub Outcome : (n : ℕ) (whole : Text) → Option (ℤ × Proc K) → Type 0
  Outcome n whole none = ⊥
  Outcome n whole (some (r, p)) = Done n whole r p ⊎ Failed whole r p

  loop_lem :
      (fuel n tot : ℕ) (rest whole : Text) (p : Proc K)
      → tot + length rest ≡ n
      → whole ≡ sink p.kernel ++ rest
      → length rest + pending p.kernel < fuel
      → Outcome n whole (writen_loop write fuel n tot rest p)
  loop_lem zero n tot rest whole p total split enough = absurd (omega arith)
  loop_lem (suc f) n tot rest whole p total split enough = elim (dec_lt tot n) [
    | no full ↦
        let none_left = eq_nil_of_length rest (omega arith) in
        rw (loop_full write f n tot rest p (omega arith)) (
          inl (
            ap pos (omega arith),
            sym (split ∙ ap (λ t. sink p.kernel ++ t) none_left ∙ append-nil (sink p.kernel)),
          ))
    | yes more ↦ elim (Reply-cases (reply write f n tot rest p)) [
      | inr (x, e) ↦
          let same_sink = kept rest p.kernel x e in
          elim (Bool-cases (x == eintr)) [
            | inl same ↦
                let e' : reply write f n tot rest p ≡ fail eintr = ground arith in
                rw (loop_interrupted write f n tot rest p more e') (
                  loop_lem f n tot rest whole
                    (record { errno = eintr; kernel = next write f n tot rest p }) total
                    (split ∙ ap (λ s. s ++ rest) (sym same_sink))
                    (omega (arith, interrupted rest p.kernel e')))
            | inr other ↦ rw (loop_failed write f n tot rest p x more (ground arith) e) (
                inr (
                  refl,
                  rest,
                  split ∙ ap (λ s. s ++ rest) (sym same_sink),
                  λ z. absurd (omega (arith, ap (length {A = ℕ}) z)),
                ))
          ]
      | inl (m, e) ↦
          let (grown, short, calm) = wrote rest p.kernel m e in
          elim (dec_lt 0 m) [
            | no nil ↦
                let e' : reply write f n tot rest p ≡ ok 0 = ground arith in
                rw (loop_none write f n tot rest p more e') (
                  inr (
                    refl,
                    rest,
                    split ∙ regroup (sink p.kernel) _ rest 0 (wrote rest p.kernel 0 e').0,
                    λ z. absurd (omega (arith, ap (length {A = ℕ}) z)),
                  ))
            | yes some_bytes ↦ rw (loop_bytes write f n tot rest p m more some_bytes e) (
                loop_lem f n (tot + m) (drop m rest) whole
                  (record p { kernel = next write f n tot rest p })
                  (omega (arith, length-drop m rest))
                  (split ∙ regroup (sink p.kernel) _ rest m grown)
                  (omega (arith, length-drop m rest)))
          ]
    ]
  ]

  -- With fuel for the bytes to write and the interruptions that are ahead, `writen` ends. It returns
  -- the length of the buffer and the descriptor has accepted the whole buffer in order; or it
  -- returns -1, and a proper head of the buffer has been accepted.
  pub writen_lem :
      (fuel : ℕ) (buffer : Text) (p : Proc K)
      → length buffer + pending p.kernel < fuel
      → Outcome (length buffer) (sink p.kernel ++ buffer) (writen write fuel buffer p)
  unfolding writen
  writen_lem fuel buffer p enough =
      loop_lem fuel (length buffer) 0 buffer (sink p.kernel ++ buffer) p (omega arith) refl enough
