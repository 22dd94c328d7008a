-- ===== src/Threads/Join/Live.antt =====
-- thread_multijoin.c: the exit of `main`, and the steps before it.
use my_linux_programming_int.Prelude.{
  ℕ, zero, suc, ◌+◌, ◌<◌, ◌≡◌, refl, sym, ap, ◌⊎◌, inl, inr, false, Bool-cases, List, [], ◌∷◌, ◌++◌,
  length, arith,
}
use mathlib.Core.Path.{subst}
use native.Mathlib.Decide.{dec_lt}
use my_linux_programming_int.Threads.Sum.{total, total-focus, find}
use my_linux_programming_int.Threads.Join.{
  Tstate, ts_alive, ts_terminated, ts_joined, Pc, asleep, locked, counted, marked, unlocked,
  returned, Thread, Main, creating, top, test, waiting, woken, scan, exited, System, lock, count,
  mark, unlock, Step, create, created, enter, leave, wait, relock, found, skip, join, scanned,
  by_thread, signalling, Reach,
}
use my_linux_programming_int.Threads.Join.Weights.{
  uncreated, joined, early, holds, announces, misfit, holds_main, to_number, Fits, Inv,
}
use my_linux_programming_int.Threads.Join.Safety.{Reach-Inv, total-one}

-- When `main` of thread_multijoin.c exits, it has joined all of the `n` threads: `numLive` and
-- `numUnjoined` are 0 and every thread is marked as joined.
pub exit_joins :
    {n : ℕ} {s : System}
    → Reach n s
    → s.main ≡ exited
    → (total joined s.threads ≡ n)
      × (length s.threads ≡ n)
      × (s.num_live ≡ 0)
      × (s.num_unjoined ≡ 0)
exit_joins {n} {s} r e =
    let i = Reach-Inv r in
    let none_live =
      subst (Fits s.num_live s.num_unjoined (total announces s.threads) (length s.threads)) e
        i.fits in
    omega (arith, i.all, i.live, i.ended, none_live, total-one s.threads i.fitting, ap uncreated e)

abbrev pub CanStep : System → Type 0
CanStep s = (t : System) × Step s t

abbrev with_threads : System → List Thread → System
with_threads s ts = record s { threads = ts }

module _ (s : System) where
  any_steps :
      (w : Thread → ℕ)
      → ((before later : List Thread) (t : Thread)
          → 0 < w t
          → CanStep (with_threads s (before ++ t ∷ later)))
      → 0 < total w s.threads
      → CanStep s
  any_steps w go h =
      let f = find w s.threads h in
      subst (λ ts. CanStep (with_threads s ts)) (sym f.place) (go f.before f.later f.it f.weighs)

module _ (s : System) (before later : List Thread) where
  busy :
      (p : Pc) (x : Tstate)
      → 0 < holds (record { pc = p; state = x }) + announces (record { pc = p; state = x })
      → CanStep (with_threads s (before ++ record { pc = p; state = x } ∷ later))
  busy locked x h = (_, by_thread before later count)
  busy counted x h = (_, by_thread before later mark)
  busy marked x h = (_, by_thread before later unlock)
  busy unlocked x h = (_, signalling x before later)
  busy asleep x h = absurd (omega arith)
  busy returned x h = absurd (omega arith)

  starts :
      (p : Pc) (x : Tstate)
      → s.mtx ≡ false
      → 0 < early (record { pc = p; state = x })
      → CanStep (with_threads s (before ++ record { pc = p; state = x } ∷ later))
  starts asleep x free h = (_, by_thread before later (lock free))
  starts locked x free h = (_, by_thread before later count)
  starts counted x free h = absurd (omega arith)
  starts marked x free h = absurd (omega arith)
  starts unlocked x free h = absurd (omega arith)
  starts returned x free h = absurd (omega arith)

-- the element at an index
record At (idx : ℕ) (ts : List Thread) : Type 0 where
  before : List Thread
  it : Thread
  later : List Thread
  place : ts ≡ before ++ it ∷ later
  index : length before ≡ idx

At-index : (idx : ℕ) (ts : List Thread) → idx < length ts → At idx ts
At-index idx [] h = absurd (omega arith)
At-index zero (t ∷ ts) h = record { before = []; it = t; later = ts; place = refl; index = refl }
At-index (suc k) (t ∷ ts) h =
    let a = At-index k ts (omega arith) in
    record {
      before = t ∷ a.before;
      it = a.it;
      later = a.later;
      place = ap (λ l. t ∷ l) a.place;
      index = ap suc a.index;
    }

module _ {n : ℕ} (s : System) where
  -- with the mutex taken by a thread, that thread moves; else the second proof serves
  unless_held : Inv n s → holds_main s.main ≡ 0 → (s.mtx ≡ false → CanStep s) → CanStep s
  unless_held i out go = elim (Bool-cases s.mtx) [
    | inl taken ↦
        any_steps s holds (λ before later t h. busy s before later t.pc t.state (omega arith))
          (omega (arith, i.owners, ap to_number taken, out))
    | inr free ↦ go free
  ]

abbrev at_ : System → Main → System
at_ s x = record s { main = x }

-- `main` at a thread in its scan
visit :
    (s : System) (before later : List Thread) (t : Thread)
    → misfit t ≡ 0
    → CanStep (record s { main = scan (length before); threads = before ++ t ∷ later })
visit s before later t f = go t.pc t.state f
  where
    go :
        (p : Pc) (x : Tstate)
        → misfit (record { pc = p; state = x }) ≡ 0
        → CanStep (record s {
          main = scan (length before);
          threads = before ++ record { pc = p; state = x } ∷ later;
        })
    go p ts_alive f = (_, skip _ before later (λ e. cc))
    go p ts_joined f = (_, skip _ before later (λ e. cc))
    go returned ts_terminated f = (_, join before later)
    go marked ts_terminated f = (_, by_thread before later unlock)
    go unlocked ts_terminated f = (_, signalling ts_terminated before later)
    go asleep ts_terminated f = absurd (omega arith)
    go locked ts_terminated f = (_, by_thread before later count)
    go counted ts_terminated f = (_, by_thread before later mark)

module _ {n : ℕ} (s : System) where
  scan_goes : (idx : ℕ) → Inv n (at_ s (scan idx)) → CanStep (at_ s (scan idx))
  scan_goes idx i = elim (dec_lt idx (length s.threads)) [
    | yes below ↦
        let a = At-index idx s.threads below in
        subst (λ ts. CanStep (record s { main = scan idx; threads = ts })) (sym a.place)
          (subst (λ k. CanStep (record s { main = scan k; threads = a.before ++ a.it ∷ a.later }))
            a.index
            (visit s a.before a.later a.it (
              omega (
                arith,
                subst (λ ts. total misfit ts ≡ 0) a.place i.fitting,
                total-focus misfit a.before a.later a.it,
              ))))
    | no over ↦ (_, scanned (omega (arith, i.fits)))
  ]

  main-CanStep : (x : Main) → Inv n (at_ s x) → (x ≡ exited) ⊎ CanStep (at_ s x)
  main-CanStep (creating zero) i = inr (_, created)
  main-CanStep (creating (suc k)) i = inr (_, create)
  main-CanStep top i = inr (elim (dec_lt 0 s.num_live) [
    | yes some_ ↦ unless_held (at_ s top) i refl (λ free. (_, enter some_ free))
    | no none_ ↦ (_, leave (omega arith))
  ])
  main-CanStep test i = inr (elim (dec_lt 0 s.num_unjoined) [
    | yes some_ ↦ (_, found some_)
    | no none_ ↦ (_, wait (omega arith))
  ])
  main-CanStep woken i = inr (unless_held (at_ s woken) i refl (λ free. (_, relock free)))
  main-CanStep (scan idx) i = inr (scan_goes idx i)
  main-CanStep exited i = inl refl
  main-CanStep waiting i = inr (elim i.fits.1 [
    | inr told ↦
        any_steps (at_ s waiting) announces
          (λ before later t h. busy (at_ s waiting) before later t.pc t.state (omega arith)) told
    | inl none_ ↦ unless_held (at_ s waiting) i refl (λ free.
        any_steps (at_ s waiting) early
          (λ before later t h. starts (at_ s waiting) before later t.pc t.state free h)
          (omega (arith, i.fits.0, none_, i.all, i.live, i.ended, total-one s.threads i.fitting)))
  ])

-- A run of thread_multijoin.c that has not come to the exit of `main` can go on by a step that is not
-- a wakeup without a signal: no termination is missed by a `main` that waits.
pub Reach-CanStep : {n : ℕ} {s : System} → Reach n s → (s.main ≡ exited) ⊎ CanStep s
Reach-CanStep {s} r = main-CanStep s s.main (Reach-Inv r)
