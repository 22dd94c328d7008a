-- ===== src/Children/Progress.antt =====
-- multi_SIGCHLD.c: the steps that are to come.
use mathlib.Core.WellFounded.{Acc}
use my_linux_programming_int.Prelude.Order.{Acc-measure}
use my_linux_programming_int.Prelude.{
  ℕ, zero, suc, ◌+◌, ◌*◌, ◌<◌, ◌≡◌, refl, ◌⊎◌, inl, inr, Bool, true, false, arith,
}
use my_linux_programming_int.Children.Safety.{left, Fits, Reach-Inv}
use my_linux_programming_int.Children.{
  Main, starting, checking, suspended, reaping, finished, System, Step, start, started, die,
  suspend, leave, deliver, reap, return, Reach,
}

abbrev bit : Bool → ℕ
bit false = 0
bit true = 1

abbrev stage : Main → ℕ
stage (starting n) = 6 * n + 3
stage checking = 2
stage suspended = 1
stage reaping = 3
stage finished = 0

-- a bound on the steps to come
abbrev ahead : System → ℕ
ahead s = 5 * s.live + s.zombies + 3 * bit s.pending + stage s.main

bit-le : (p : Bool) → bit p < 2
bit-le false = omega arith
bit-le true = omega arith

Step-ahead : {s t : System} → Step s t → ahead t < ahead s
Step-ahead start = omega arith
Step-ahead started = omega arith
Step-ahead (die {l} {z} {v} {c} {p} {m}) = omega (arith, bit-le p)
Step-ahead (suspend h) = omega arith
Step-ahead (leave h) = omega arith
Step-ahead deliver = omega arith
Step-ahead reap = omega arith
Step-ahead return = omega arith

abbrev pub CanStep : System → Type 0
CanStep s = (t : System) × Step s t

abbrev with_ : (l z v c : ℕ) (p : Bool) (m : Main) → System
with_ l z v c p m = record {
  live = l;
  zombies = z;
  pending = p;
  num_live_children = v;
  sig_cnt = c;
  main = m;
}

moves :
    (l z v c : ℕ) (p : Bool) (m : Main)
    → v ≡ l + z + left m
    → Fits z p v m
    → (m ≡ finished) ⊎ CanStep (with_ l z v c p m)
moves l z v c p (starting zero) e h = inr (_, started)
moves l z v c p (starting (suc n)) e h = inr (_, start)
moves l z zero c p checking e h = inr (_, leave refl)
moves l z (suc v) c p checking e h = inr (_, suspend (omega arith))
moves (suc l) z v c p suspended e h = inr (_, die)
moves zero z v c true suspended e h = inr (_, deliver)
moves zero z v c false suspended e (some_, woken) =
    absurd (elim woken [ inl now ↦ cc | inr none_ ↦ omega arith ])
moves l zero v c p reaping e h = inr (_, return)
moves l (suc z) v c p reaping e h = inr (_, reap)
moves l z v c p finished e h = inl refl

-- Every run of the process and its children ends, and no state that it reaches is stuck before the
-- process has finished.
pub Reach-Ends :
    {children : ℕ} {s : System}
    → Reach children s
    → Acc (λ t u. Step u t) s × ((s.main ≡ finished) ⊎ CanStep s)
Reach-Ends {children} {s} r =
    let i = Reach-Inv r in
    (
      Acc-measure Step (λ _. Unit) ahead (λ t u _ step. (tt, Step-ahead step)) s tt,
      moves s.live s.zombies s.num_live_children s.sig_cnt s.pending s.main i.counts i.fits,
    )
