-- ===== src/Threads/Tests.antt =====
-- Runs of the programs, from their first step on.
use mathlib.Core.WellFounded.{Acc}
use my_linux_programming_int.Prelude.{
  ℕ, ◌+◌, ◌*◌, ◌≤◌, ◌<◌, ◌≡◌, refl, ◌⊎◌, Bool, false, Option, none, some, [], ◌∷◌, length, arith,
}
use my_linux_programming_int.Threads.Sum.{total}
use my_linux_programming_int.Threads.Join
use my_linux_programming_int.Threads.Join.Weights.{joined}
use my_linux_programming_int.Threads.Join.Live.{exit_joins, CanStep, Reach-CanStep}
use my_linux_programming_int.Threads.Poll
use my_linux_programming_int.Threads.Poll.Safety
use my_linux_programming_int.Threads.Poll.Safety.{polling_exit}
use my_linux_programming_int.Threads.Incr.Locked
use my_linux_programming_int.Threads.Incr.Locked.{
  Who, t1, t2, Pc, head, returned, stored, loaded, leave, acquire, load, bump, store, release,
  step1, step2, here, next, IsJoined,
}
use my_linux_programming_int.Threads.Incr.Safety.{holds, stores, increments_kept, joined_lem}
use my_linux_programming_int.Threads.Incr.Progress.{threads_end}
use my_linux_programming_int.Threads.Incr.Locks.{lock, unlock, mutex}
use my_linux_programming_int.Threads.Incr.Racy
use my_linux_programming_int.Threads.Incr.Racy.{rounds, updates_lost}
use my_linux_programming_int.Threads.Prod.Steps
use my_linux_programming_int.Threads.Prod.Steps.{
  waiting, exited, begin, found, take, wait, relock, count, create, by_main, by_producer,
  signalling,
}
use my_linux_programming_int.Threads.Prod.Invariant.{owes, sum, exit_lem}
use my_linux_programming_int.Threads.Prod.Live.{Goes, Reach-Goes}

abbrev at_ : ℕ → Option Who → Pc → Pc → Locked.System mutex
at_ v g p q = record { glob = v; lock = g; pc1 = p; pc2 = q }

-- a round of the first thread, then the second thread enters
run_first : Locked.Reach mutex 1 (at_ 1 none (head 1) (head 0))
run_first =
    next
      (next
        (next (next (next here (step1 (acquire (omega arith) (lock refl)))) (step1 load))
          (step1 bump))
        (step1 store))
      (step1 (release unlock))

run_loaded : Locked.Reach mutex 1 (at_ 1 (some t2) returned (loaded 0 1))
run_loaded =
    next
      (next (next run_first (step1 (leave (omega arith))))
        (step2 (acquire (omega arith) (lock refl))))
      (step2 load)

run_joined : Locked.Reach mutex 1 (at_ 2 none returned returned)
run_joined =
    next (next (next (next run_loaded (step2 bump)) (step2 store)) (step2 (release unlock)))
      (step2 (leave (omega arith)))

increments_kept_example :
    (holds returned + holds returned ≤ 1)
    × (2 ≡ stores 1 returned + stores 1 returned)
    × (2 ≤ 2 * 1)
increments_kept_example = increments_kept mutex run_joined

joined_lem_example : (at_ 2 none returned returned).glob ≡ 2 * 1
joined_lem_example = joined_lem mutex run_joined (record { first = refl; second = refl })

threads_end_example :
    (IsJoined mutex (at_ 1 (some t2) returned (loaded 0 1))
      ⊎ ((t : Locked.System mutex) × Locked.Step mutex 1 (at_ 1 (some t2) returned (loaded 0 1)) t))
    × Acc (λ t u. Locked.Step mutex 1 u t) (at_ 1 (some t2) returned (loaded 0 1))
threads_end_example = threads_end mutex run_loaded

updates_lost_example : Racy.Reach 3 (record { glob = 3; pc1 = returned; pc2 = returned })
updates_lost_example = updates_lost 3

run_racy : Racy.Reach 1 (record { glob = 1; pc1 = returned; pc2 = returned })
run_racy =
    Racy.next
      (Racy.next
        (Racy.next
          (Racy.next
            (Racy.next
              (Racy.next
                (Racy.next (Racy.next Racy.here (Racy.step1 (Racy.load (omega arith))))
                  (Racy.step2 (Racy.load (omega arith))))
                (Racy.step1 Racy.bump))
              (Racy.step2 Racy.bump))
            (Racy.step1 Racy.store))
          (Racy.step2 Racy.store))
        (Racy.step1 (Racy.leave (omega arith))))
      (Racy.step2 (Racy.leave (omega arith)))

-- one producer of one unit, for which `main` waits
abbrev one_producer : Steps.Main → (avail : ℕ) → Steps.Producer → Steps.System
one_producer x a p = record {
  avail = a;
  mtx = false;
  tot_required = 1;
  main = x;
  producers = p ∷ [];
}

run_waiting : Steps.Reach (1 ∷ []) (one_producer (waiting 0) 0 (Steps.head 1 0))
run_waiting =
    Steps.next
      (Steps.next (Steps.next (Steps.next Steps.here (create 1 [] [])) (by_main begin))
        (by_main (Steps.Consume.lock refl)))
      (by_main (wait refl))

Reach-Goes_example :
    Goes (one_producer (waiting 0) 0 (Steps.head 1 0))
    × Acc (λ t u. Steps.Step u t) (one_producer (waiting 0) 0 (Steps.head 1 0))
Reach-Goes_example = Reach-Goes run_waiting (omega arith)

run_signalled : Steps.Reach (1 ∷ []) (one_producer (Steps.woken 0) 1 (Steps.head 1 1))
run_signalled =
    Steps.next
      (Steps.next
        (Steps.next
          (Steps.next run_waiting (by_producer [] [] (Steps.Produce.lock (omega arith) refl)))
          (by_producer [] [] count))
        (by_producer [] [] Steps.Produce.unlock))
      (signalling 1 0 [] [])

run_exited : Steps.Reach (1 ∷ []) (one_producer (exited 1) 0 (Steps.head 1 1))
run_exited =
    Steps.next
      (Steps.next
        (Steps.next
          (Steps.next (Steps.next run_signalled (by_main (relock refl)))
            (by_main (found (omega arith))))
          (by_main (take (omega arith))))
        (by_main (Steps.Consume.unlock refl)))
      (by_main (Steps.Consume.leave refl))

exit_lem_example :
    (1 ≡ sum (1 ∷ []))
    × ((one_producer (exited 1) 0 (Steps.head 1 1)).avail ≡ 0)
    × (total owes (Steps.head 1 1 ∷ []) ≡ 0)
    × (0 < sum (1 ∷ []))
exit_lem_example = exit_lem 1 run_exited refl

-- one producer of one unit, for which `main` polls
abbrev one_polled : Poll.Main → (avail : ℕ) (mtx : Bool) → Poll.Producer → Poll.System
one_polled x a m p = record { avail = a; mtx = m; tot_required = 1; main = x; producers = p ∷ [] }

run_polled : Poll.Reach (1 ∷ []) (one_polled (Poll.exited 1) 0 false (Poll.head 1 1))
run_polled =
    Poll.next
      (Poll.next
        (Poll.next
          (Poll.next
            (Poll.next
              (Poll.next
                (Poll.next
                  (Poll.next (Poll.next Poll.here (Poll.create 1 [] [])) (Poll.by_main Poll.begin))
                  (Poll.by_producer [] [] (Poll.Produce.lock (omega arith) refl)))
                (Poll.by_producer [] [] Poll.count))
              (Poll.by_producer [] [] Poll.Produce.unlock))
            (Poll.by_main (Poll.Consume.lock refl)))
          (Poll.by_main (Poll.take (omega arith))))
        (Poll.by_main (Poll.Consume.unlock refl)))
      (Poll.by_main (Poll.Consume.leave refl))

polling_exit_example :
    let s = one_polled (Poll.exited 1) 0 false (Poll.head 1 1) in
    (1 ≡ Safety.sum (1 ∷ []))
    × (s.avail ≡ 0)
    × (total Safety.owes s.producers ≡ 0)
    × (0 < Safety.sum (1 ∷ []))
polling_exit_example = polling_exit 1 run_polled refl

-- thread_multijoin.c with one thread, for which `main` waits
abbrev one_thread : Join.Main → (v u : ℕ) → Join.Pc → Join.Tstate → Join.System
one_thread x v u p s = record {
  num_live = v;
  num_unjoined = u;
  mtx = false;
  main = x;
  threads = record { pc = p; state = s } ∷ [];
}

run_asleep : Join.Reach 1 (one_thread Join.waiting 1 0 Join.asleep Join.ts_alive)
run_asleep =
    Join.next
      (Join.next (Join.next (Join.next Join.here Join.create) Join.created)
        (Join.enter (omega arith) refl))
      (Join.wait refl)

Reach-CanStep_example :
    (Join.waiting ≡ Join.exited) ⊎ CanStep (one_thread Join.waiting 1 0 Join.asleep Join.ts_alive)
Reach-CanStep_example = Reach-CanStep run_asleep

run_terminated : Join.Reach 1 (one_thread Join.woken 1 1 Join.returned Join.ts_terminated)
run_terminated =
    Join.next
      (Join.next
        (Join.next
          (Join.next (Join.next run_asleep (Join.by_thread [] [] (Join.lock refl)))
            (Join.by_thread [] [] Join.count))
          (Join.by_thread [] [] Join.mark))
        (Join.by_thread [] [] Join.unlock))
      (Join.signalling Join.ts_terminated [] [])

run_all_joined : Join.Reach 1 (one_thread Join.exited 0 0 Join.returned Join.ts_joined)
run_all_joined =
    Join.next
      (Join.next
        (Join.next
          (Join.next (Join.next run_terminated (Join.relock refl)) (Join.found (omega arith)))
          (Join.join [] []))
        (Join.scanned refl))
      (Join.leave refl)

exit_joins_example :
    let s = one_thread Join.exited 0 0 Join.returned Join.ts_joined in
    (total joined s.threads ≡ 1) × (length s.threads ≡ 1) × (s.num_live ≡ 0) × (s.num_unjoined ≡ 0)
exit_joins_example = exit_joins run_all_joined refl
