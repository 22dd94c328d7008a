-- ===== src/Threads/Incr/Racy.antt =====
-- 30-thread-sync/thread_incr.c: the same loop with no lock.
use my_linux_programming_int.Prelude.{ℕ, zero, suc, ◌+◌, ◌≤◌, ◌<◌, arith}
use native.Mathlib.Numerals.{add-one}
use my_linux_programming_int.Threads.Incr.Locked.{
  Pc, head, loaded, bumped, returned, locked, stored,
}

pub record System : Type 0 where
  pub glob : ℕ
  pub pc1 : Pc
  pub pc2 : Pc

-- One step of a thread. `locked` and `stored` do not occur: the store ends the round.
pub data Move (loops : ℕ) : (glob : ℕ) → Pc → (glob' : ℕ) → Pc → Type 0 where
  leave : {v j : ℕ} → loops ≤ j → Move loops v (head j) v returned
  load : {v j : ℕ} → j < loops → Move loops v (head j) v (loaded j v)
  bump : {v j loc : ℕ} → Move loops v (loaded j loc) v (bumped j (loc + 1))
  store : {v j loc : ℕ} → Move loops v (bumped j loc) loc (head (j + 1))

pub data Step (loops : ℕ) : System → System → Type 0 where
  step1 :
      {v v' : ℕ} {p p' q : Pc}
      → Move loops v p v' p'
      → Step loops (record { glob = v; pc1 = p; pc2 = q }) (record { glob = v'; pc1 = p'; pc2 = q })
  step2 :
      {v v' : ℕ} {p q q' : Pc}
      → Move loops v q v' q'
      → Step loops (record { glob = v; pc1 = p; pc2 = q }) (record { glob = v'; pc1 = p; pc2 = q' })

abbrev at_ : ℕ → Pc → Pc → System
at_ v p q = record { glob = v; pc1 = p; pc2 = q }

pub data Reach (loops : ℕ) : System → Type 0 where
  here : Reach loops (at_ 0 (head 0) (head 0))
  next : {s t : System} → Reach loops s → Step loops s t → Reach loops t

-- the stores that a thread has made
abbrev pub rounds : (loops : ℕ) → Pc → ℕ
rounds loops (head j) = j
rounds loops (loaded j loc) = j
rounds loops (bumped j loc) = j
rounds loops returned = loops
rounds loops (locked j) = j
rounds loops (stored j) = j

-- no local value is ahead of the stores made by both, `total`
abbrev IsBehind : (loops total : ℕ) → Pc → Type 0
IsBehind loops total (head j) = j ≤ loops
IsBehind loops total (loaded j loc) = (j < loops) × (loc ≤ total)
IsBehind loops total (bumped j loc) = (j < loops) × (loc ≤ total + 1)
IsBehind loops total returned = Unit
IsBehind loops total (locked j) = ⊥
IsBehind loops total (stored j) = ⊥

record Inv (loops v : ℕ) (p q : Pc) : Type 0 where
  behind : v ≤ rounds loops p + rounds loops q
  first : IsBehind loops (rounds loops p + rounds loops q) p
  second : IsBehind loops (rounds loops p + rounds loops q) q

IsBehind-mono : (loops n m : ℕ) (q : Pc) → n ≤ m → IsBehind loops n q → IsBehind loops m q
IsBehind-mono loops n m (head j) h b = b
IsBehind-mono loops n m (loaded j loc) h b = omega (arith, b.0, b.1)
IsBehind-mono loops n m (bumped j loc) h b = omega (arith, b.0, b.1)
IsBehind-mono loops n m returned h b = tt
IsBehind-mono loops n m (locked j) h b = b
IsBehind-mono loops n m (stored j) h b = b

Move-Inv :
    {loops v v' : ℕ} {p p' : Pc}
    → Move loops v p v' p'
    → (q : Pc) → Inv loops v p q
    → Inv loops v' p' q
Move-Inv {loops} (leave {j} n) q i = record {
  behind = omega (arith, i.behind, i.first);
  first = tt;
  second = IsBehind-mono loops _ _ q (omega (arith, i.first)) i.second;
}
Move-Inv (load n) q i = record { behind = i.behind; first = (n, i.behind); second = i.second }
Move-Inv bump q i = record {
  behind = i.behind;
  first = omega (arith, i.first.0, i.first.1);
  second = i.second;
}
Move-Inv {loops} store q i = record {
  behind = omega (arith, i.first.0, i.first.1);
  first = omega (arith, i.first.0);
  second = IsBehind-mono loops _ _ q (omega arith) i.second;
}

swap : {loops v : ℕ} {p q : Pc} → Inv loops v p q → Inv loops v q p
swap {loops} {v} {p} {q} i = record {
  behind = omega (arith, i.behind);
  first = IsBehind-mono loops _ _ q (omega arith) i.second;
  second = IsBehind-mono loops _ _ p (omega arith) i.first;
}

Step-Inv :
    {loops : ℕ} {s t : System}
    → Step loops s t
    → Inv loops s.glob s.pc1 s.pc2
    → Inv loops t.glob t.pc1 t.pc2
Step-Inv (step1 {q} m) i = Move-Inv m q i
Step-Inv (step2 {p} m) i = swap (Move-Inv m p (swap i))

Reach-Inv : {loops : ℕ} {s : System} → Reach loops s → Inv loops s.glob s.pc1 s.pc2
Reach-Inv here = record { behind = omega arith; first = omega arith; second = omega arith }
Reach-Inv (next r st) = Step-Inv st (Reach-Inv r)

-- With no lock, `glob` is never more than the number of increments that the two threads have
-- stored.
pub updates_bound :
    {loops : ℕ} {s : System} → Reach loops s → s.glob ≤ rounds loops s.pc1 + rounds loops s.pc2
updates_bound r = (Reach-Inv r).behind

-- a round in lockstep: both load the same value, and the second store hides the first
lockstep :
    {loops : ℕ} (j : ℕ)
    → j < loops
    → Reach loops (at_ j (head j) (head j))
    → Reach loops (at_ (j + 1) (head (j + 1)) (head (j + 1)))
lockstep j h r =
    next
      (next
        (next (next (next (next r (step1 (load h))) (step2 (load h))) (step1 bump)) (step2 bump))
        (step1 store))
      (step2 store)

lockstep_all : {loops : ℕ} (j : ℕ) → j ≤ loops → Reach loops (at_ j (head j) (head j))
lockstep_all zero h = here
lockstep_all (suc j) h = rw (← add-one j) (lockstep j h (lockstep_all j (omega arith)))

-- For every number of rounds some schedule ends with both threads returned and `glob` at half of the
-- 2 * loops increments that they made: every increment of one thread is lost.
pub updates_lost :
    (loops : ℕ) → Reach loops (record { glob = loops; pc1 = returned; pc2 = returned })
updates_lost loops =
    next (next (lockstep_all loops (omega arith)) (step1 (leave (omega arith))))
      (step2 (leave (omega arith)))
