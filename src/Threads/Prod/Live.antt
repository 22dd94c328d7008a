-- ===== src/Threads/Prod/Live.antt =====
-- prod_condvar.c: the steps that can be made, and the work that is left.
use my_linux_programming_int.Prelude.{
  ℕ, zero, suc, ◌+◌, ◌-◌, ◌*◌, ◌≤◌, ◌<◌, ◌≡◌, refl, sym, ap, ◌⊎◌, inl, inr, Bool, false, List, [],
  ◌∷◌, ◌++◌, arith, Bool-cases,
}
use mathlib.Core.Path.{subst}
use mathlib.Core.WellFounded.{Acc}
use native.Mathlib.Decide.{dec_lt}
use my_linux_programming_int.Prelude.Order.{Acc-measure}
use my_linux_programming_int.Threads.Sum.{total, total-focus, find}
use my_linux_programming_int.Threads.Prod.Steps.{
  Producer, head, locked, counted, unlocked, returned, Main, creating, top, test, waiting, woken,
  consume, after, exited, System, Produce, signal, Consume, begin, wait, relock, found, take, again,
  Step, create, by_main, by_producer, signalling, Reach, next,
}
use my_linux_programming_int.Threads.Prod.Invariant.{
  owes, holds, announces, misfit, holds_main, to_number, to_number-le, Inv, Reach-Inv, uncreated,
  Reach-tot, sum,
}

-- what a producer has still to do, with the wakeups and the units that it causes
abbrev pub work : Producer → ℕ
work (head c j) = 20 * (c - j) + 1
work (locked c j) = 20 * (c - j)
work (counted c j) = 20 * (c - j) - 11
work (unlocked c j) = 20 * (c - j) - 12
work returned = 0

abbrev pub work_args : List ℕ → ℕ
work_args [] = 0
work_args (c ∷ cs) = 20 * c + 2 + work_args cs

-- what `main` has still to do before it waits or exits, beside the units that are available
abbrev pub work_main : (avail : ℕ) → Main → ℕ
work_main a (creating args) = 5 + work_args args
work_main a (top n) = 3
work_main a (test n) = 2
work_main a (woken n) = 3
work_main a (waiting n) = 0
work_main zero (consume n d) = 5
work_main (suc a) (consume n d) = 0
work_main a (after n d) = 4
work_main a (exited n) = 0

pub work_left : System → ℕ
work_left s = 10 * s.avail + work_main s.avail s.main + total work s.producers

Consume-work :
    {t a a' : ℕ} {m m' : Bool} {x x' : Main}
    → Consume t a m x a' m' x'
    → 10 * a' + work_main a' x' < 10 * a + work_main a x
Consume-work begin = omega arith
Consume-work (Consume.lock e) = omega arith
Consume-work (wait e) = omega arith
Consume-work (relock e) = omega arith
Consume-work (found e) = ground arith
Consume-work (take e) = ground arith
Consume-work (Consume.unlock e) = ground arith
Consume-work (again e) = omega arith
Consume-work (Consume.leave e) = omega arith

Produce-work :
    {a a' : ℕ} {m m' : Bool} {p p' : Producer}
    → Produce a m p a' m' p'
    → misfit p ≡ 0
    → 10 * a' + work p' < 10 * a + work p
Produce-work (Produce.leave e) f = omega arith
Produce-work (Produce.lock e z) f = omega arith
Produce-work Produce.count f = omega arith
Produce-work Produce.unlock f = omega arith

-- While a producer holds the mutex `main` does not, so it is not consuming.
work_main-steady : (a a' : ℕ) (x : Main) → holds_main x ≡ 0 → work_main a x ≡ work_main a' x
work_main-steady a a' (consume n d) h = absurd (omega arith)
work_main-steady a a' (creating args) h = refl
work_main-steady a a' x h = refl

work_main-signal : (a : ℕ) (x : Main) → work_main a (signal x) ≤ work_main a x + 3
work_main-signal a (waiting n) = omega arith
work_main-signal a (creating args) = omega arith
work_main-signal a x = omega arith

Produce-avail :
    {a a' : ℕ} {m m' : Bool} {p p' : Producer} → Produce a m p a' m' p' → (a ≡ a') ⊎ (holds p ≡ 1)
Produce-avail (Produce.leave e) = inl refl
Produce-avail (Produce.lock e z) = inl refl
Produce-avail Produce.count = inr refl
Produce-avail Produce.unlock = inl refl

-- `main` does not consume while a producer changes `avail`.
work_main-Produce :
    {a a' : ℕ} {m m' : Bool} {p p' : Producer} (h : ℕ) (x : Main)
    → Produce a m p a' m' p'
    → to_number m ≡ holds p + h + holds_main x
    → work_main a' x ≡ work_main a x
work_main-Produce {a} {a'} {m} h x mv o = elim (Produce-avail mv) [
  | inl same ↦ ap (λ b. work_main b x) (sym same)
  | inr held ↦ work_main-steady a' a x (omega (arith, o, held, to_number-le m))
]

Step-work : {s t : System} → Step s t → Inv s → work_left t < work_left s
unfolding work_left
Step-work (create c cs ps) i = unfold total in omega arith
Step-work (by_main m) i = omega (arith, Consume-work m)
Step-work (by_producer {x} {p} {p'} before later m) i = omega (
  arith,
  total-focus work before later p,
  total-focus work before later p',
  total-focus misfit before later p,
  Produce-work m (omega (arith, i.in_loop, total-focus misfit before later p)),
  work_main-Produce (total holds before + total holds later) x m
      (omega (arith, i.counts.owners, total-focus holds before later p)),
)
Step-work (signalling {a} {x} c j before later) i = omega (
  arith,
  total-focus work before later (unlocked c j),
  total-focus work before later (head c (j + 1)),
  total-focus misfit before later (unlocked c j),
  i.in_loop,
  work_main-signal a x,
)

abbrev CanStep : System → Type 0
CanStep s = (t : System) × Step s t

abbrev with_producers : System → List Producer → System
with_producers s ps = record s { producers = ps }

-- a producer inside or behind its critical section can move
module _ (s : System) (before later : List Producer) where
  holder_steps : (p : Producer) → 0 < holds p → CanStep (with_producers s (before ++ p ∷ later))
  holder_steps (head c j) h = absurd (omega arith)
  holder_steps (locked c j) h = (_, by_producer before later Produce.count)
  holder_steps (counted c j) h = (_, by_producer before later Produce.unlock)
  holder_steps (unlocked c j) h = absurd (omega arith)
  holder_steps returned h = absurd (omega arith)

  announcer_steps :
      (p : Producer) → 0 < announces p → CanStep (with_producers s (before ++ p ∷ later))
  announcer_steps (head c j) h = absurd (omega arith)
  announcer_steps (locked c j) h = absurd (omega arith)
  announcer_steps (counted c j) h = (_, by_producer before later Produce.unlock)
  announcer_steps (unlocked c j) h = (_, signalling c j before later)
  announcer_steps returned h = absurd (omega arith)

  owing_steps :
      (p : Producer) → s.mtx ≡ false → 0 < owes p → CanStep (with_producers s (before ++ p ∷ later))
  owing_steps (head c j) free h = (_, by_producer before later (Produce.lock (omega arith) free))
  owing_steps (locked c j) free h = (_, by_producer before later Produce.count)
  owing_steps (counted c j) free h = (_, by_producer before later Produce.unlock)
  owing_steps (unlocked c j) free h = (_, signalling c j before later)
  owing_steps returned free h = absurd (omega arith)

module _ (s : System) where
  any_steps :
      (w : Producer → ℕ)
      → ((before later : List Producer) (p : Producer)
          → 0 < w p
          → CanStep (with_producers s (before ++ p ∷ later)))
      → 0 < total w s.producers
      → CanStep s
  any_steps w go h =
      let f = find w s.producers h in
      subst (λ ps. CanStep (with_producers s ps)) (sym f.place) (go f.before f.later f.it f.weighs)

  -- with the mutex taken by a producer, that producer moves; else the second proof serves
  unless_held : Inv s → holds_main s.main ≡ 0 → (s.mtx ≡ false → CanStep s) → CanStep s
  unless_held i out go = elim (Bool-cases s.mtx) [
    | inl taken ↦
        any_steps holds (holder_steps s) (omega (arith, i.counts.owners, ap to_number taken, out))
    | inr free ↦ go free
  ]

abbrev pub Goes : System → Type 0
Goes s = ((n : ℕ) × (s.main ≡ exited n)) ⊎ CanStep s

-- the move that `main` makes, or the producer for which it waits
module _ (s : System) where
  abbrev at_ : Main → System
  at_ x = record s { main = x }

  main-Goes : (x : Main) → Inv (at_ x) → 0 < s.tot_required + uncreated x → Goes (at_ x)
  main-Goes (creating []) i h = inr (_, by_main begin)
  main-Goes (creating (c ∷ cs)) i h = inr (_, create c cs s.producers)
  main-Goes (top n) i h =
      inr (unless_held (at_ (top n)) i refl (λ free. (_, by_main (Consume.lock free))))
  main-Goes (test n) i h = inr (elim (dec_lt 0 s.avail) [
    | yes some_ ↦ (_, by_main (found some_))
    | no none_ ↦ (_, by_main (wait (omega arith)))
  ])
  main-Goes (woken n) i h =
      inr (unless_held (at_ (woken n)) i refl (λ free. (_, by_main (relock free))))
  main-Goes (consume n d) i h = inr (elim (dec_lt 0 s.avail) [
    | yes some_ ↦ (_, by_main (take some_))
    | no none_ ↦ (_, by_main (Consume.unlock (omega arith)))
  ])
  main-Goes (after n d) i h = inr (elim (Bool-cases d) [
    | inl done ↦ (_, by_main (Consume.leave done))
    | inr more ↦ (_, by_main (again more))
  ])
  main-Goes (exited n) i h = inl (n, refl)
  main-Goes (waiting n) i h = inr (elim (dec_lt 0 s.avail) [
    | yes some_ ↦
        any_steps (at_ (waiting n)) announces (announcer_steps (at_ (waiting n)))
          (i.counts.fits.1 some_)
    | no none_ ↦ unless_held (at_ (waiting n)) i refl (λ free.
        any_steps (at_ (waiting n)) owes
          (λ before later p. owing_steps (at_ (waiting n)) before later p free)
          (omega (arith, i.counts.units, i.counts.fits.0)))
  ])

-- Where some unit is required, a run of prod_condvar.c that has not come to the exit of `main` can
-- go on, so no wakeup is lost; and it cannot go on for ever on its own steps, which wakeups without a
-- signal are not.
pub Reach-Goes :
    {args : List ℕ} {s : System} → Reach args s → 0 < sum args → Goes s × Acc (λ t u. Step u t) s
Reach-Goes {args} {s} r h = (
  main-Goes s s.main (Reach-Inv r) (omega (arith, Reach-tot r)),
  Acc-measure Step (Reach args) work_left (λ s1 t r1 st. (next r1 st, Step-work st (Reach-Inv r1)))
      s r,
)
