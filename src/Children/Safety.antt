-- ===== src/Children/Safety.antt =====
-- multi_SIGCHLD.c: what `numLiveChildren` counts, and the pending SIGCHLD.
use my_linux_programming_int.Prelude.{
  ℕ, suc, ◌+◌, ◌<◌, ◌≤◌, ◌≡◌, refl, ap, ◌⊎◌, inl, inr, Bool, true, arith,
}
use mathlib.Core.Path.{subst}
use my_linux_programming_int.Children.{
  Main, starting, checking, suspended, reaping, finished, System, Step, start, started, die,
  suspend, leave, deliver, reap, return, Reach, begin, then,
}

-- children not started yet
abbrev pub left : Main → ℕ
left (starting n) = n
left checking = 0
left suspended = 0
left reaping = 0
left finished = 0

-- What holds where the process stands: outside the handler a signal is pending when there is a dead
-- child to wait for.
abbrev pub Fits : (zombies : ℕ) (pending : Bool) (num_live_children : ℕ) → Main → Type 0
Fits z p v (starting n) = (p ≡ true) ⊎ (z ≡ 0)
Fits z p v checking = (p ≡ true) ⊎ (z ≡ 0)
Fits z p v suspended = (0 < v) × ((p ≡ true) ⊎ (z ≡ 0))
Fits z p v reaping = Unit
Fits z p v finished = v ≡ 0

pub record Inv (children : ℕ) (s : System) : Type 0 where
  pub counts : s.num_live_children ≡ s.live + s.zombies + left s.main
  pub bounded : s.num_live_children ≤ children
  pub fits : Fits s.zombies s.pending s.num_live_children s.main

dies :
    (l z v : ℕ) (p : Bool) (m : Main)
    → v ≡ suc l + z + left m
    → Fits z p v m
    → Fits (suc z) true v m
dies l z v p (starting n) e h = inl refl
dies l z v p checking e h = inl refl
dies l z v p suspended e h = (h.0, inl refl)
dies l z v p reaping e h = tt
dies l z v p finished e h = absurd (omega arith)

Step-Inv : {children : ℕ} {s t : System} → Inv children s → Step s t → Inv children t
Step-Inv i start = record { counts = omega (arith, i.counts); bounded = i.bounded; fits = i.fits }
Step-Inv i started = record { counts = i.counts; bounded = i.bounded; fits = i.fits }
Step-Inv i (die {l} {z} {v} {c} {p} {m}) = record {
  counts = omega (arith, i.counts);
  bounded = i.bounded;
  fits = dies l z v p m i.counts i.fits;
}
Step-Inv i (suspend some_) = record {
  counts = i.counts;
  bounded = i.bounded;
  fits = (some_, i.fits);
}
Step-Inv i (leave none_) = record { counts = i.counts; bounded = i.bounded; fits = none_ }
Step-Inv i deliver = record { counts = i.counts; bounded = i.bounded; fits = tt }
Step-Inv i reap = record {
  counts = omega (arith, i.counts);
  bounded = omega (arith, i.bounded);
  fits = tt;
}
Step-Inv i return = record { counts = i.counts; bounded = i.bounded; fits = inr refl }

pub Reach-Inv : {children : ℕ} {s : System} → Reach children s → Inv children s
Reach-Inv begin = record { counts = omega arith; bounded = omega arith; fits = inr refl }
Reach-Inv (then r step) = Step-Inv (Reach-Inv r) step

-- When the process sleeps in sigsuspend() and no child runs any more, a SIGCHLD is pending: no signal
-- is lost, although signals that come while the handler runs are merged into one.
pub Reach-Woken :
    {children : ℕ} {s : System}
    → Reach children s
    → s.main ≡ suspended
    → s.live ≡ 0
    → s.pending ≡ true
Reach-Woken {children} {s} r e quiet =
    let i = Reach-Inv r in
    let (some_, woken) = subst (Fits s.zombies s.pending s.num_live_children) e i.fits in
    elim woken [ inl now ↦ now | inr none_ ↦ absurd (omega (arith, i.counts, ap left e)) ]

-- When the process has finished its loop, it has waited for all of its children.
pub finished_lem :
    {children : ℕ} {s : System}
    → Reach children s
    → s.main ≡ finished
    → (s.live ≡ 0) × (s.zombies ≡ 0) × (s.num_live_children ≡ 0)
finished_lem {children} {s} r e =
    let i = Reach-Inv r in
    let none_ = subst (Fits s.zombies s.pending s.num_live_children) e i.fits in
    omega (arith, i.counts, none_)
