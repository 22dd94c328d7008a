-- ===== src/Children/Tests.antt =====
-- A run with one child, which ends before the process sleeps.
use my_linux_programming_int.Prelude.{ℕ, ◌≡◌, refl, ◌⊎◌, true, false, arith}
use mathlib.Core.WellFounded.{Acc}
use my_linux_programming_int.Children.{
  Main, suspended, finished, System, Step, start, started, die, suspend, leave, deliver, reap,
  return, Reach, begin, then,
}
use my_linux_programming_int.Children.Safety.{finished_lem}
use my_linux_programming_int.Children.Progress.{CanStep, Reach-Ends}

-- the process, with its child dead: `v` is numLiveChildren
abbrev dead_child : (v sig_cnt : ℕ) → Main → System
dead_child v c m = record {
  live = 0;
  zombies = v;
  pending = true;
  num_live_children = v;
  sig_cnt = c;
  main = m;
}

asleep : Reach 1 (dead_child 1 0 suspended)
asleep = then (then (then (then begin start) die) started) (suspend (omega arith))

abbrev over : System
over = record {
  live = 0;
  zombies = 0;
  pending = false;
  num_live_children = 0;
  sig_cnt = 1;
  main = finished;
}

done : Reach 1 over
done = then (then (then (then asleep deliver) reap) return) (leave refl)

finished_lem_example : (over.live ≡ 0) × (over.zombies ≡ 0) × (over.num_live_children ≡ 0)
finished_lem_example = finished_lem done refl

Reach-Ends_example :
    Acc (λ t u. Step u t) (dead_child 1 0 suspended)
    × ((suspended ≡ finished) ⊎ CanStep (dead_child 1 0 suspended))
Reach-Ends_example = Reach-Ends asleep
