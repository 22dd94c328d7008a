-- ===== src/Threads/Incr/Progress.antt =====
-- Under any lock: the steps that the two threads can make, and those still to come.
use my_linux_programming_int.Prelude.{ℕ, ◌+◌, ◌-◌, ◌*◌, ◌≤◌, ◌≡◌, refl, ◌⊎◌, inl, inr, arith}
use mathlib.Core.WellFounded.{Acc}
use native.Mathlib.Decide.{dec_lt}
use my_linux_programming_int.Prelude.Order.{Acc-measure}
use my_linux_programming_int.Threads.Incr.Locked.{
  Who, t1, t2, Lock, Pc, head, locked, loaded, bumped, stored, returned, System, Move, leave,
  acquire, load, bump, store, release, Step, step1, step2, Reach, next, IsJoined,
}
use my_linux_programming_int.Threads.Incr.Safety.{holds, IsFresh, Inv, Reach-Inv}

-- steps that a thread still has to take
abbrev pub left : (loops : ℕ) → Pc → ℕ
left loops (head j) = 5 * (loops - j) + 1
left loops (locked j) = 5 * (loops - j)
left loops (loaded j loc) = 5 * (loops - j) - 1
left loops (bumped j loc) = 5 * (loops - j) - 2
left loops (stored j) = 5 * (loops - j) - 3
left loops returned = 0

module _ (L : Lock) where
  open L use {State, Acquire, inside}

  abbrev pub remaining : ℕ → System L → ℕ
  remaining loops s = left loops s.pc1 + left loops s.pc2

  Move-left :
      {loops v v' : ℕ} {w : Who} {g g' : State} {p p' : Pc}
      → Move L loops w v g p v' g' p'
      → IsFresh loops v p
      → left loops p ≡ left loops p' + 1
  Move-left (leave n) f = omega arith
  Move-left (acquire n a) f = omega arith
  Move-left load f = omega arith
  Move-left bump f = omega (arith, f.0)
  Move-left store f = omega (arith, f.0)
  Move-left (release r) f = omega arith

  Step-remaining :
      {loops : ℕ} {s t : System L}
      → Inv L loops s
      → Step L loops s t
      → remaining loops s ≡ remaining loops t + 1
  Step-remaining i (step1 m) = omega (arith, Move-left m i.fresh1)
  Step-remaining i (step2 m) = omega (arith, Move-left m i.fresh2)

  -- A thread that does not wait for the lock can move.
  record CanMove (loops : ℕ) (w : Who) (v : ℕ) (g : State) (p : Pc) : Type 0 where
    v' : ℕ
    g' : State
    p' : Pc
    move : Move L loops w v g p v' g' p'

  inside_moves :
      (loops : ℕ) (w : Who) (v : ℕ) (g : State) (p : Pc) → holds p ≡ 1 → CanMove loops w v g p
  inside_moves loops w v g (head j) h = absurd (omega arith)
  inside_moves loops w v g (locked j) h = record { v' = _; g' = _; p' = _; move = load }
  inside_moves loops w v g (loaded j loc) h = record { v' = _; g' = _; p' = _; move = bump }
  inside_moves loops w v g (bumped j loc) h = record { v' = _; g' = _; p' = _; move = store }
  inside_moves loops w v g (stored j) h =
      let (g', r) = L.can_release w g in record { v' = _; g' = g'; p' = _; move = release r }
  inside_moves loops w v g returned h = absurd (omega arith)

  -- With the lock free, a thread that has not returned can move.
  free_moves :
      (loops : ℕ) (w : Who) (v : ℕ) (g : State) (p : Pc)
      → inside g ≡ 0
      → (p ≡ returned) ⊎ CanMove loops w v g p
  free_moves loops w v g (head j) free = inr (elim (dec_lt j loops) [
    | yes more ↦
        let (h, a) = L.can_acquire w g free in
        record { v' = _; g' = h; p' = _; move = acquire more a }
    | no over ↦ record { v' = _; g' = _; p' = _; move = leave (omega arith) }
  ])
  free_moves loops w v g (locked j) free = inr (inside_moves loops w v g (locked j) refl)
  free_moves loops w v g (loaded j loc) free = inr (inside_moves loops w v g (loaded j loc) refl)
  free_moves loops w v g (bumped j loc) free = inr (inside_moves loops w v g (bumped j loc) refl)
  free_moves loops w v g (stored j) free = inr (inside_moves loops w v g (stored j) refl)
  free_moves loops w v g returned free = inl refl

  by_first :
      (loops : ℕ) (s : System L)
      → CanMove loops t1 s.glob s.lock s.pc1
      → (t : System L) × Step L loops s t
  by_first loops s c = (_, step1 c.move)

  by_second :
      (loops : ℕ) (s : System L)
      → CanMove loops t2 s.glob s.lock s.pc2
      → (t : System L) × Step L loops s t
  by_second loops s c = (_, step2 c.move)

  holds-cases :
      (p q : Pc) → holds p + holds q ≤ 1 → (holds p ≡ 1) ⊎ (holds q ≡ 1) ⊎ (holds p + holds q ≡ 0)
  holds-cases p q h = elim (dec_lt 0 (holds p)) [
    | yes a ↦ inl (omega arith)
    | no a ↦
        inr (elim (dec_lt 0 (holds q)) [ yes b ↦ inl (omega arith) | no b ↦ inr (omega arith) ])
  ]

  unjoined_steps :
      {loops : ℕ} (s : System L)
      → Inv L loops s
      → IsJoined L s ⊎ ((t : System L) × Step L loops s t)
  unjoined_steps {loops} s i = elim (holds-cases s.pc1 s.pc2 i.exclusive) [
    | inl first ↦ inr (by_first loops s (inside_moves loops t1 s.glob s.lock s.pc1 first))
    | inr (inl second) ↦ inr (by_second loops s (inside_moves loops t2 s.glob s.lock s.pc2 second))
    | inr (inr nobody) ↦
        let free : inside s.lock ≡ 0 = omega (arith, i.owners) in
        elim (free_moves loops t1 s.glob s.lock s.pc1 free) [
          | inr m ↦ inr (by_first loops s m)
          | inl done1 ↦ elim (free_moves loops t2 s.glob s.lock s.pc2 free) [
            | inr m ↦ inr (by_second loops s m)
            | inl done2 ↦ inl (record { first = done1; second = done2 })
          ]
        ]
  ]

  -- In every reachable state the threads have both returned or some step is possible, and from it
  -- every schedule ends: there is no deadlock, and the threads do not run for ever.
  pub threads_end :
      {loops : ℕ} {s : System L}
      → Reach L loops s
      → (IsJoined L s ⊎ ((t : System L) × Step L loops s t)) × Acc (λ t u. Step L loops u t) s
  threads_end {loops} {s} r = (
    unjoined_steps s (Reach-Inv L r),
    Acc-measure (Step L loops) (Reach L loops) (remaining loops)
        (λ s1 t r1 st. (next r1 st, omega (arith, Step-remaining (Reach-Inv L r1) st))) s r,
  )
