-- ===== src/Io/Copy/Correct.antt =====
-- 4-fileio/copy.c: what `main` has copied when it ends.
use my_linux_programming_int.Prelude.{
  ℕ, ◌<◌, ◌≡◌, sym, ◌∙◌, false, Option, none, some, [], ◌∷◌, ◌++◌, append-nil, length, Text, codes,
  text_eq, arith,
}
use mathlib.Core.Path.{ap₂}
use mathlib.Core.Option
use my_linux_programming_int.Sys.{ok, Proc}
use my_linux_programming_int.Io.Pump.{End, eof, read_error, write_error}
use my_linux_programming_int.Io.Pump.Correct
use my_linux_programming_int.Io.Pump.Correct.{PumpLaws, Ends, pump_lem}
use my_linux_programming_int.Io.Copy.{
  Ended, exit_success, usage_err, err_exit, fatal, FileSys, buf_size, close_both, after_loop,
  transfer, copy_files, main,
}

-- The two descriptors transfer as documented, and closing either loses nothing that was accepted.
-- (They are not independent where both paths name one file, which the second `open` truncates.)
pub record CopyLaws {K : Type 0} (os : FileSys K) (input output : ℕ) : Type 0 where
  pub moves : PumpLaws (os.read input) (os.write output)
  pub open moves use {stream, sink}
  pub close_sink : (fd : ℕ) (k : K) → sink (os.close fd k).1 ≡ sink k

-- where success is reported, what has come out
abbrev pub Whole : Ended → (out all : Text) → Type 0
Whole exit_success out all = out ≡ all
Whole (usage_err m) out all = Unit
Whole (err_exit m) out all = Unit
Whole (fatal m) out all = Unit

any_end : (e : Ended) (out all : Text) → out ≡ all → Whole e out all
any_end exit_success out all h = h
any_end (usage_err m) out all h = tt
any_end (err_exit m) out all h = tt
any_end (fatal m) out all h = tt

module _ {K : Type 0} (os : FileSys K) (input output : ℕ) (laws : CopyLaws os input output) where
  open laws use {moves, stream, sink, close_sink}

  -- The run ends; if it reports success, the output has accepted `all`.
  abbrev pub Copied : (all : Text) → Option (Ended × Proc K) → Type 0
  Copied all none = ⊥
  Copied all (some (e, p)) = Whole e (sink p.kernel) all

  sink-close_both : (p : Proc K) → sink (close_both os input output p).1.kernel ≡ sink p.kernel
  unfolding close_both
  sink-close_both p =
      let k = (os.close input p.kernel).1 in
      ground (arith, close_sink input p.kernel, close_sink output k)

  after_loop-Copied :
      (all : Text) (r : Option (End × Proc K))
      → Correct.Outcome _ _ moves buf_size all r
      → Copied all (Option.map (after_loop os input output) r)
  unfolding after_loop
  after_loop-Copied all none h = h
  after_loop-Copied all (some (eof, p)) h =
      let (nothing, over) = h.complete in
      any_end (close_both os input output p).0 (sink (close_both os input output p).1.kernel) all (
        sink-close_both p
        ∙ sym (
            h.conserved
            ∙ ap₂ (λ l s. sink p.kernel ++ (l ++ s)) nothing over
            ∙ append-nil (sink p.kernel)))
  after_loop-Copied all (some (read_error, p)) h = tt
  after_loop-Copied all (some (write_error, p)) h = tt

  transfer_lem :
      (fuel : ℕ) (p : Proc K)
      → length (stream p.kernel) < fuel
      → Copied (sink p.kernel ++ stream p.kernel) (transfer os fuel input output p)
  unfolding transfer
  transfer_lem fuel p enough =
      after_loop-Copied _ _ (pump_lem _ _ moves fuel buf_size p (omega arith) enough)

  main_opened :
      (fuel : ℕ) (prog old new : Text) (p : Proc K)
      → text_eq old (codes "--help") ≡ false
      → (os.open_read old p.kernel).0 ≡ ok input
      → (os.open_trunc new (os.open_read old p.kernel).1).0 ≡ ok output
      → main os fuel (prog ∷ old ∷ new ∷ []) p
        ≡ transfer os fuel input output
            (record p { kernel = (os.open_trunc new (os.open_read old p.kernel).1).1 })
  unfolding main copy_files
  main_opened fuel prog old new p help opened created = ground arith

  -- Where both files open, the copy program ends, given fuel for the bytes of the old file; and if
  -- it reports success, the new file has accepted, behind what it held when it was opened, all the
  -- bytes that were ahead in the old file.
  pub main-Copied :
      (fuel : ℕ) (prog old new : Text) (p : Proc K)
      → text_eq old (codes "--help") ≡ false
      → (os.open_read old p.kernel).0 ≡ ok input
      → (os.open_trunc new (os.open_read old p.kernel).1).0 ≡ ok output
      → let k = (os.open_trunc new (os.open_read old p.kernel).1).1 in
        length (stream k) < fuel
        → Copied (sink k ++ stream k) (main os fuel (prog ∷ old ∷ new ∷ []) p)
  main-Copied fuel prog old new p help opened created enough =
      let k = (os.open_trunc new (os.open_read old p.kernel).1).1 in
      rw (main_opened fuel prog old new p help opened created)
        (transfer_lem fuel (record p { kernel = k }) enough)
