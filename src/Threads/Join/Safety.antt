-- ===== src/Threads/Join/Safety.antt =====
-- thread_multijoin.c: the counters tell how many threads are not joined yet.
use my_linux_programming_int.Prelude.{
  ℕ, ◌+◌, ◌≤◌, ◌<◌, ◌≡◌, refl, ◌⊎◌, inl, Bool, List, [], ◌∷◌, ◌++◌, length, length-append, arith,
}
use my_linux_programming_int.Threads.Sum.{total, total-focus}
use my_linux_programming_int.Threads.Join.{
  Tstate, ts_alive, ts_terminated, ts_joined, Pc, asleep, unlocked, returned, Thread, Main,
  creating, top, test, waiting, woken, scan, exited, System, Run, lock, count, mark, unlock, signal,
  Step, create, created, enter, leave, wait, relock, found, skip, join, scanned, by_thread,
  signalling, Spurious, wake, Reach, here, next, wake_up,
}
use my_linux_programming_int.Threads.Join.Weights.{
  is_joined, joined, unjoined_at, unjoined, early_at, early, holds, announces, misfit_at, misfit,
  holds_main, uncreated, to_number, to_number-le, Fits, Inv,
}

one : (p : Pc) (s : Tstate) → misfit_at p s ≡ 0 → is_joined s + unjoined_at p s + early_at p ≡ 1
one p s h = ground arith

-- Every thread is early, unjoined or joined.
pub total-one :
    (ts : List Thread)
    → total misfit ts ≡ 0
    → total joined ts + total unjoined ts + total early ts ≡ length ts
unfolding total
total-one [] h = refl
total-one (t ∷ ts) h =
    omega (arith, one t.pc t.state (omega (arith, h)), total-one ts (omega (arith, h)))

-- what a move of a thread does to the weights, beside `h` other owners of the mutex
record Moved (u h : ℕ) (t : Thread) (u' : ℕ) (m' : Bool) (t' : Thread) : Type 0 where
  same : joined t' ≡ joined t
  ends : u' + unjoined t ≡ u + unjoined t'
  owner : to_number m' ≡ holds t' + h
  tells : (announces t ≤ announces t') × ((u' ≡ u) ⊎ (announces t' ≡ 1))
  fit : misfit t' ≡ 0

Run-Moved :
    {u u' : ℕ} {m m' : Bool} {t t' : Thread} (h : ℕ)
    → Run u m t u' m' t'
    → to_number m ≡ holds t + h
    → misfit t ≡ 0
    → Moved u h t u' m' t'
Run-Moved h (lock {s} e) o f = ground arith
Run-Moved h (count {s}) o f = ground arith
Run-Moved h (mark {s}) o f = ground arith
Run-Moved {m} h (unlock {s}) o f = ground (arith, to_number-le m)

-- `main` is fitted as before where the threads have counted nothing, or have still to signal
Fits-tells :
    (v u u' w w' l l' : ℕ) (x : Main)
    → l ≡ l'
    → w ≤ w'
    → (u' ≡ u) ⊎ (0 < w')
    → Fits v u w l x
    → Fits v u' w' l' x
Fits-tells v u u' w w' l l' waiting e n t f = ground arith
Fits-tells v u u' w w' l l' (scan idx) e n t f = omega arith
Fits-tells v u u' w w' l l' (creating k) e n t f = tt
Fits-tells v u u' w w' l l' top e n t f = tt
Fits-tells v u u' w w' l l' test e n t f = f
Fits-tells v u u' w w' l l' woken e n t f = f
Fits-tells v u u' w w' l l' exited e n t f = f

Fits-signal : (v u w w' l l' : ℕ) (x : Main) → l ≡ l' → Fits v u w l x → Fits v u w' l' (signal x)
Fits-signal v u w w' l l' waiting e f = f.0
Fits-signal v u w w' l l' (scan idx) e f = omega arith
Fits-signal v u w w' l l' (creating k) e f = tt
Fits-signal v u w w' l l' top e f = tt
Fits-signal v u w w' l l' test e f = f
Fits-signal v u w w' l l' woken e f = f
Fits-signal v u w w' l l' exited e f = f

holds_main-signal :
    (x : Main) → (holds_main (signal x) ≡ holds_main x) × (uncreated (signal x) ≡ uncreated x)
holds_main-signal waiting = (refl, refl)
holds_main-signal (scan idx) = (refl, refl)
holds_main-signal (creating n) = (refl, refl)
holds_main-signal top = (refl, refl)
holds_main-signal test = (refl, refl)
holds_main-signal woken = (refl, refl)
holds_main-signal exited = (refl, refl)

length-focus :
    (before later : List Thread) (t : Thread)
    → length (before ++ t ∷ later) ≡ length before + length later + 1
length-focus before later t = omega (arith, length-append before (t ∷ later))

-- a step of `main` that leaves the threads and the counters alone
module _ {n v u : ℕ} {ts : List Thread} where
  main-Inv :
      {m m' : Bool} (x x' : Main)
      → uncreated x ≡ uncreated x'
      → to_number m' + holds_main x ≡ to_number m + holds_main x'
      → Fits v u (total announces ts) (length ts) x'
      → Inv n (record { num_live = v; num_unjoined = u; mtx = m; main = x; threads = ts })
      → Inv n (record { num_live = v; num_unjoined = u; mtx = m'; main = x'; threads = ts })
  main-Inv x x' e o f i = record {
    all = omega (arith, i.all);
    live = i.live;
    ended = i.ended;
    owners = omega (arith, i.owners);
    fitting = i.fitting;
    fits = f;
  }

-- another thread in the place of `t`
module _ {n v u v' u' : ℕ} {m m' : Bool} (before later : List Thread) (t t' : Thread)
    (x x' : Main) where
  focus-Inv :
      (uncreated x ≡ uncreated x')
      → (v' + joined t' ≡ v + joined t)
      → (u' + unjoined t ≡ u + unjoined t')
      → (to_number m' + (holds t + holds_main x) ≡ to_number m + (holds t' + holds_main x'))
      → misfit t' ≡ 0
      → Fits v' u'
          (announces t' + (total announces before + total announces later))
          (length (before ++ t ∷ later))
          x'
      → Inv n (record {
        num_live = v;
        num_unjoined = u;
        mtx = m;
        main = x;
        threads = before ++ t ∷ later;
      })
      → Inv n (record {
        num_live = v';
        num_unjoined = u';
        mtx = m';
        main = x';
        threads = before ++ t' ∷ later;
      })
  focus-Inv e l ends o f fits_ i = record {
    all = omega (arith, i.all, length-focus before later t, length-focus before later t');
    live =
        omega
          (arith, i.live, total-focus joined before later t, total-focus joined before later t');
    ended =
        omega (
          arith,
          i.ended,
          total-focus unjoined before later t,
          total-focus unjoined before later t',
        );
    owners =
        omega
          (arith, i.owners, total-focus holds before later t, total-focus holds before later t');
    fitting =
        omega
          (arith, i.fitting, total-focus misfit before later t, total-focus misfit before later t');
    fits =
        Fits-tells v' u' u' _ _ _ _ x'
          (omega (arith, length-focus before later t, length-focus before later t'))
          (omega (arith, total-focus announces before later t')) (inl refl) fits_;
  }

abbrev new_thread : Thread
new_thread = record { pc = asleep; state = ts_alive }

abbrev ended_thread : Thread
ended_thread = record { pc = returned; state = ts_terminated }

abbrev joined_thread : Thread
joined_thread = record { pc = returned; state = ts_joined }

-- the thread that `main` joins is live, and counted
joinable :
    {n v u : ℕ} {m : Bool} (before later : List Thread)
    → Inv n (record {
      num_live = v;
      num_unjoined = u;
      mtx = m;
      main = scan (length before);
      threads = before ++ ended_thread ∷ later;
    })
    → (0 < v) × (0 < u)
joinable before later i = omega (
  arith,
  i.all,
  i.live,
  i.ended,
  total-one (before ++ ended_thread ∷ later) i.fitting,
  total-focus unjoined before later ended_thread,
)

fitting-returned : (s : Tstate) → misfit_at unlocked s ≡ 0 → misfit_at returned s ≡ 0
fitting-returned s h = ground arith

Step-Inv : {n : ℕ} {s t : System} → Step s t → Inv n s → Inv n t
Step-Inv (create {n = k} {ts}) i = record {
  all = omega (arith, i.all, length-append ts (new_thread ∷ []));
  live = unfold total in omega (arith, i.live, total-focus joined ts [] new_thread);
  ended = unfold total in omega (arith, i.ended, total-focus unjoined ts [] new_thread);
  owners = unfold total in omega (arith, i.owners, total-focus holds ts [] new_thread);
  fitting = unfold total in omega (arith, i.fitting, total-focus misfit ts [] new_thread);
  fits = tt;
}
Step-Inv created i = main-Inv (creating 0) top refl refl tt i
Step-Inv (enter e z) i = main-Inv top test refl (ground arith) e i
Step-Inv (leave e) i = main-Inv top exited refl refl e i
Step-Inv (wait {m} e) i =
    main-Inv test waiting refl (omega (arith, to_number-le m, i.owners)) (i.fits, inl e) i
Step-Inv (relock z) i = main-Inv woken test refl (ground arith) i.fits i
Step-Inv (found e) i = main-Inv test (scan 0) refl refl (omega arith) i
Step-Inv (skip t before later e) i =
    main-Inv (scan (length before)) (scan (length before + 1)) refl refl
      (omega (arith, length-focus before later t)) i
Step-Inv (join before later) i =
    let (some_live, some_unjoined) = joinable before later i in
    focus-Inv before later ended_thread joined_thread (scan (length before))
      (scan (length before + 1)) refl (omega arith) (omega arith) refl refl
      (omega (arith, length-focus before later ended_thread)) i
Step-Inv (scanned {idx} {m} e) i =
    main-Inv (scan idx) top refl (omega (arith, to_number-le m, i.owners)) tt i
Step-Inv (by_thread {v} {u} {u'} {x} {t} {t'} before later r) i =
    let h = total holds before + total holds later + holds_main x in
    let rest = total announces before + total announces later in
    let k =
      Run-Moved h r (omega (arith, i.owners, total-focus holds before later t))
        (omega (arith, i.fitting, total-focus misfit before later t)) in
    focus-Inv before later t t' x x refl (omega (arith, k.same)) (omega (arith, k.ends))
      (omega (arith, k.owner, i.owners, total-focus holds before later t)) k.fit
      (Fits-tells v u u' _ _ _ _ x refl
        (omega (arith, k.tells.0, total-focus announces before later t)) (ground (arith, k.tells.1))
        i.fits)
      i
Step-Inv (signalling {v} {u} {x} s before later) i =
    let t : Thread = record { pc = unlocked; state = s } in
    let t' : Thread = record { pc = returned; state = s } in
    focus-Inv before later t t' x (signal x) (omega (arith, (holds_main-signal x).1)) refl refl
      (omega (arith, (holds_main-signal x).0))
      (fitting-returned s (omega (arith, i.fitting, total-focus misfit before later t)))
      (Fits-signal v u _ _ _ _ x refl i.fits) i

Spurious-Inv : {n : ℕ} {s t : System} → Spurious s t → Inv n s → Inv n t
Spurious-Inv wake i = main-Inv waiting woken refl refl i.fits.0 i

pub Reach-Inv : {n : ℕ} {s : System} → Reach n s → Inv n s
Reach-Inv here = record {
  all = omega arith;
  live = unfold total in omega arith;
  ended = unfold total in refl;
  owners = unfold total in refl;
  fitting = unfold total in refl;
  fits = tt;
}
Reach-Inv (next r st) = Step-Inv st (Reach-Inv r)
Reach-Inv (wake_up r w) = Spurious-Inv w (Reach-Inv r)
