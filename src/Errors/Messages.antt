-- ===== src/Errors/Messages.antt =====
-- lib/error_functions.c: what is written, in which order, and how the process ends.
use my_linux_programming_int.Prelude.{
  ℕ, zero, suc, ◌≤◌, ◌≡◌, refl, ◌∙◌, Bool, true, false, Option, none, some, [], ◌∷◌, ◌++◌,
  append-nil, take, Text, codes, arith,
}
use my_linux_programming_int.Errors.{
  Stdio, Ending, exited, exited_now, flush, terminate, diagnosis, line, output_error, err_msg,
  err_exit, err_exit_now, err_exit_en, fatal,
}

-- two texts with the same first `n` bytes
abbrev Agree : (n : ℕ) → Text → Text → Type 0
Agree n s t = (k : ℕ) → k ≤ n → take k s ≡ take k t

Agree-cut : (n k : ℕ) (s t : Text) → k ≤ n → take k (take n s ++ t) ≡ take k (s ++ t)
Agree-cut n zero s t h = refl
Agree-cut zero (suc k) s t h = absurd (omega arith)
Agree-cut (suc n) (suc k) [] t h = refl
Agree-cut (suc n) (suc k) (c ∷ s) t h = rw (Agree-cut n k s t (omega arith))

Agree-append : (n : ℕ) (r s t : Text) → Agree n s t → Agree n (r ++ s) (r ++ t)
Agree-append n [] s t a k h = a k h
Agree-append n (c ∷ r) s t a zero h = refl
Agree-append n (c ∷ r) s t a (suc k) h = rw (Agree-append n r s t a k (omega arith))

-- The two smaller buffers do not change what fits the third.
buffered :
    (detail msg : Text)
    → take 499 (line (take 499 detail) (take 499 msg)) ≡ take 499 (line detail msg)
buffered detail msg =
    Agree-append 499 (codes "ERROR") _ _ (λ k h. Agree-cut 499 k detail _ h) 499 (omega arith)
    ∙ Agree-append 499 (codes "ERROR") _ _
        (Agree-append 499 detail _ _
          (Agree-append 499 (codes " ") _ _ (λ k h. Agree-cut 499 k msg (codes "\n") h)))
        499 (omega arith)

-- what a diagnostic adds to `stderr`: the first 499 bytes of the line
abbrev pub report : (strerror : ℕ → Text) (use_err : Bool) (err : ℕ) (msg : Text) → Text
report strerror use_err err msg = take 499 (line (diagnosis strerror use_err err) msg)

-- EF_DUMPCORE is not defined, or empty.
abbrev pub IsUnset : Option Text → Type 0
IsUnset none = Unit
IsUnset (some []) = Unit
IsUnset (some (c ∷ v)) = ⊥

terminate-IsUnset :
    (dump_core : Option Text) (s : Stdio)
    → IsUnset dump_core
    → (terminate dump_core true s ≡ (exited 1, flush s))
      × (terminate dump_core false s ≡ (exited_now 1, s))
unfolding terminate
terminate-IsUnset none s h = (refl, refl)
terminate-IsUnset (some []) s h = (refl, refl)
terminate-IsUnset (some (c ∷ v)) s h = absurd h

-- How a process ends, and what its streams have then.
pub record Leaves (end : Ending) (pending out err : Text) (r : Ending × Stdio) : Type 0 where
  pub ended : r.0 ≡ end
  pub unwritten : r.1.pending ≡ pending
  pub written : r.1.out ≡ out
  pub reports : r.1.err ≡ err

module _ (strerror : ℕ → Text) (disturbed : Stdio → ℕ) where
  reported :
      (use_err : Bool) (err : ℕ) (msg : Text) (s : Stdio)
      → (output_error strerror disturbed use_err err true msg s ≡ record {
        pending = [];
        out = s.out ++ s.pending;
        err = s.err ++ report strerror use_err err msg;
        errno = disturbed (flush s);
      })
        × (output_error strerror disturbed use_err err false msg s
            ≡ record s { err = s.err ++ report strerror use_err err msg; errno = disturbed s })
  unfolding output_error flush
  reported use_err err msg s =
      let e = buffered (diagnosis strerror use_err err) msg in (rw e refl, rw e refl)

  -- `errMsg` adds to `stderr` the first 499 bytes of its line, though it is put together in buffers
  -- of 500 bytes; it has written what `stdout` buffered, and leaves `errno` as it was, whatever the
  -- calls in between do to it.
  pub err_msg_lem :
      (msg : Text) (s : Stdio)
      → err_msg strerror disturbed msg s ≡ record {
        pending = [];
        out = s.out ++ s.pending;
        err = s.err ++ report strerror true s.errno msg;
        errno = s.errno;
      }
  unfolding err_msg
  err_msg_lem msg s = rw ((reported true s.errno msg s).0) refl

  flushed :
      (dump_core : Option Text) (use_err : Bool) (err : ℕ) (msg : Text) (s : Stdio)
      → IsUnset dump_core
      → Leaves
          (exited 1)
          []
          (s.out ++ s.pending)
          (s.err ++ report strerror use_err err msg)
          (terminate dump_core true (output_error strerror disturbed use_err err true msg s))
  unfolding flush
  flushed dump_core use_err err msg s h =
      rw ((reported use_err err msg s).0, (terminate-IsUnset dump_core _ h).0)
        (record {
          ended = refl;
          unwritten = refl;
          written = append-nil (s.out ++ s.pending);
          reports = refl;
        })

  unflushed :
      (dump_core : Option Text) (use_err : Bool) (err : ℕ) (msg : Text) (s : Stdio)
      → IsUnset dump_core
      → Leaves
          (exited_now 1)
          s.pending
          s.out
          (s.err ++ report strerror use_err err msg)
          (terminate dump_core false (output_error strerror disturbed use_err err false msg s))
  unflushed dump_core use_err err msg s h =
      rw ((reported use_err err msg s).1, (terminate-IsUnset dump_core _ h).1)
        (record { ended = refl; unwritten = refl; written = refl; reports = refl })

  -- Where no core dump is asked for, `errExit`, `errExitEN` and `fatal` write what `stdout` buffered
  -- and end by exit(3); `err_exit` leaves it unwritten and ends by _exit(2). All with status 1, and
  -- with the first 499 bytes of the line on `stderr`; `errExitEN` diagnoses its own error number,
  -- `fatal` none.
  pub exits_lem :
      (dump_core : Option Text) (errnum : ℕ) (msg : Text) (s : Stdio)
      → IsUnset dump_core
      → Leaves
          (exited 1)
          []
          (s.out ++ s.pending)
          (s.err ++ report strerror true s.errno msg)
          (err_exit strerror disturbed dump_core msg s)
        × Leaves
            (exited 1)
            []
            (s.out ++ s.pending)
            (s.err ++ report strerror true errnum msg)
            (err_exit_en strerror disturbed dump_core errnum msg s)
        × Leaves
            (exited 1)
            []
            (s.out ++ s.pending)
            (s.err ++ report strerror false 0 msg)
            (fatal strerror disturbed dump_core msg s)
        × Leaves
            (exited_now 1)
            s.pending
            s.out
            (s.err ++ report strerror true s.errno msg)
            (err_exit_now strerror disturbed dump_core msg s)
  unfolding err_exit err_exit_en fatal err_exit_now
  exits_lem dump_core errnum msg s h = (
    flushed dump_core true s.errno msg s h,
    flushed dump_core true errnum msg s h,
    flushed dump_core false 0 msg s h,
    unflushed dump_core true s.errno msg s h,
  )
