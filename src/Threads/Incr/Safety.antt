-- ===== src/Threads/Incr/Safety.antt =====
-- Under any lock: who is inside, and what has been counted.
use my_linux_programming_int.Prelude.{ℕ, ◌+◌, ◌*◌, ◌≤◌, ◌<◌, ◌≡◌, refl, arith}
use my_linux_programming_int.Threads.Incr.Locked.{
  Who, Lock, Pc, head, locked, loaded, bumped, stored, returned, System, Move, leave, acquire, load,
  bump, store, release, Step, step1, step2, Reach, here, next, IsJoined,
}

-- between the return of the lock call and the unlock
abbrev pub holds : Pc → ℕ
holds (head j) = 0
holds returned = 0
holds (locked j) = 1
holds (loaded j loc) = 1
holds (bumped j loc) = 1
holds (stored j) = 1

-- the increments that a thread has stored
abbrev pub stores : (loops : ℕ) → Pc → ℕ
stores loops (head j) = j
stores loops (locked j) = j
stores loops (loaded j loc) = j
stores loops (bumped j loc) = j
stores loops (stored j) = j + 1
stores loops returned = loops

-- what the locals say about `glob`, and the bound of `j`
abbrev pub IsFresh : (loops glob : ℕ) → Pc → Type 0
IsFresh loops v (head j) = j ≤ loops
IsFresh loops v (locked j) = j < loops
IsFresh loops v (loaded j loc) = (j < loops) × (loc ≡ v)
IsFresh loops v (bumped j loc) = (j < loops) × (loc ≡ v + 1)
IsFresh loops v (stored j) = j < loops
IsFresh loops v returned = Unit

stores-le : {loops : ℕ} (v : ℕ) (p : Pc) → IsFresh loops v p → stores loops p ≤ loops
stores-le v (head j) h = h
stores-le v (locked j) h = omega arith
stores-le v (loaded j loc) h = omega (arith, h.0)
stores-le v (bumped j loc) h = omega (arith, h.0)
stores-le v (stored j) h = omega arith
stores-le v returned h = omega arith

module _ (L : Lock) where
  open L use {State, inside, IsOk}

  pub record Inv (loops : ℕ) (s : System L) : Type 0 where
    pub ok : IsOk s.lock
    pub owners : inside s.lock ≡ holds s.pc1 + holds s.pc2
    pub exclusive : holds s.pc1 + holds s.pc2 ≤ 1
    pub counted : s.glob ≡ stores loops s.pc1 + stores loops s.pc2
    pub fresh1 : IsFresh loops s.glob s.pc1
    pub fresh2 : IsFresh loops s.glob s.pc2

  -- A move of one thread beside another that stands at `q`.
  record Beside (loops v : ℕ) (g : State) (p q : Pc) : Type 0 where
    ok : IsOk g
    owners : inside g ≡ holds p + holds q
    exclusive : holds p + holds q ≤ 1
    counted : v ≡ stores loops p + stores loops q
    fresh : IsFresh loops v p
    fresh' : IsFresh loops v q

  Move-Beside :
      {loops v v' : ℕ} {w : Who} {g g' : State} {p p' : Pc}
      → Move L loops w v g p v' g' p'
      → (q : Pc) → Beside loops v g p q
      → Beside loops v' g' p' q
  Move-Beside (leave n) q b = ground (arith, b.owners, b.exclusive, b.counted, b.fresh, b.fresh')
  Move-Beside (acquire n a) q b = ground (arith, L.acquire_lem b.ok a)
  Move-Beside load q b = ground arith
  Move-Beside bump q b = ground arith
  Move-Beside store q b = ground arith
  Move-Beside (release r) q b =
      ground (arith, L.release_lem b.ok (omega (arith, b.owners, b.exclusive)) r)

  Step-Inv : {loops : ℕ} {s t : System L} → Step L loops s t → Inv loops s → Inv loops t
  Step-Inv (step1 {q} m) i =
      let b = Move-Beside m q (record {
        ok = i.ok;
        owners = i.owners;
        exclusive = i.exclusive;
        counted = i.counted;
        fresh = i.fresh1;
        fresh' = i.fresh2;
      }) in
      record {
        ok = b.ok;
        owners = b.owners;
        exclusive = b.exclusive;
        counted = b.counted;
        fresh1 = b.fresh;
        fresh2 = b.fresh';
      }
  Step-Inv (step2 {p} m) i =
      let b = Move-Beside m p (record {
        ok = i.ok;
        owners = omega (arith, i.owners);
        exclusive = omega (arith, i.exclusive);
        counted = omega (arith, i.counted);
        fresh = i.fresh2;
        fresh' = i.fresh1;
      }) in
      record {
        ok = b.ok;
        owners = omega (arith, b.owners);
        exclusive = omega (arith, b.exclusive);
        counted = omega (arith, b.counted);
        fresh1 = b.fresh';
        fresh2 = b.fresh;
      }

  pub Reach-Inv : {loops : ℕ} {s : System L} → Reach L loops s → Inv loops s
  Reach-Inv here = record {
    ok = L.start_ok;
    owners = L.start_free;
    exclusive = omega arith;
    counted = refl;
    fresh1 = omega arith;
    fresh2 = omega arith;
  }
  Reach-Inv (next r st) = Step-Inv st (Reach-Inv r)

  -- In every state that the two threads can reach, at most one of them is between the return of its
  -- lock call and its unlock, and `glob` is the number of increments that the two have stored, at
  -- most twice `loops`.
  pub increments_kept :
      {loops : ℕ} {s : System L}
      → Reach L loops s
      → (holds s.pc1 + holds s.pc2 ≤ 1)
        × (s.glob ≡ stores loops s.pc1 + stores loops s.pc2)
        × (s.glob ≤ 2 * loops)
  increments_kept {loops} {s} r =
      let i = Reach-Inv r in
      (
        i.exclusive,
        i.counted,
        omega (arith, i.counted, stores-le s.glob s.pc1 i.fresh1, stores-le s.glob s.pc2 i.fresh2),
      )

  -- When both threads have been joined, `glob` is twice `loops`: no increment is lost.
  pub joined_lem : {loops : ℕ} {s : System L} → Reach L loops s → IsJoined L s → s.glob ≡ 2 * loops
  joined_lem r j = rw ((Reach-Inv r).counted, j.first, j.second) (omega arith)
