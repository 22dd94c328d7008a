-- ===== src/Threads/Incr/Locked.antt =====
-- `threadFunc` under a lock, one shared access at a time, and `main` once both threads run.
use my_linux_programming_int.Prelude.{ℕ, ◌+◌, ◌≤◌, ◌<◌, ◌≡◌}

pub data Who : Type 0 where
  t1 t2 : Who

-- What the programs rely on of `mtx`, `sem` or `spinlock`. `inside` counts the threads that have
-- acquired it and not released it; `IsOk` holds of the states of a lock that is only released by a
-- thread inside.
pub record Lock : Type 1 where
  pub State : Type 0
  pub start : State
  pub Acquire : Who → State → State → Type 0
  pub Release : Who → State → State → Type 0
  pub inside : State → ℕ
  pub IsOk : State → Type 0
  pub start_free : inside start ≡ 0
  pub start_ok : IsOk start
  pub acquire_lem :
      {w : Who} {g h : State} → IsOk g → Acquire w g h → (inside g ≡ 0) × (inside h ≡ 1) × IsOk h
  pub release_lem :
      {w : Who} {g h : State} → IsOk g → inside g ≡ 1 → Release w g h → (inside h ≡ 0) × IsOk h
  pub can_acquire : (w : Who) (g : State) → inside g ≡ 0 → (h : State) × Acquire w g h
  pub can_release : (w : Who) (g : State) → (h : State) × Release w g h

-- Where a thread stands, with its locals: `j` rounds are complete.
pub data Pc : Type 0 where
  head : (j : ℕ) → Pc  -- at the test of the `for` loop
  locked : (j : ℕ) → Pc
  loaded : (j loc : ℕ) → Pc  -- loc = glob
  bumped : (j loc : ℕ) → Pc  -- loc++
  stored : (j : ℕ) → Pc  -- glob = loc
  returned : Pc

module _ (L : Lock) where
  open L use {State, Acquire, Release}

  pub record System : Type 0 where
    pub glob : ℕ
    pub lock : State
    pub pc1 : Pc
    pub pc2 : Pc

  -- one step of thread `w`: the shared state and its own place, before and after
  pub data Move (loops : ℕ) (w : Who)
      : (glob : ℕ) → State → Pc → (glob' : ℕ) → State → Pc → Type 0 where
    leave : {v : ℕ} {g : State} {j : ℕ} → loops ≤ j → Move loops w v g (head j) v g returned
    acquire :
        {v : ℕ} {g h : State} {j : ℕ}
        → j < loops
        → Acquire w g h
        → Move loops w v g (head j) v h (locked j)
    load : {v : ℕ} {g : State} {j : ℕ} → Move loops w v g (locked j) v g (loaded j v)
    bump :
        {v : ℕ} {g : State} {j loc : ℕ} → Move loops w v g (loaded j loc) v g (bumped j (loc + 1))
    store : {v : ℕ} {g : State} {j loc : ℕ} → Move loops w v g (bumped j loc) loc g (stored j)
    release :
        {v : ℕ} {g h : State} {j : ℕ}
        → Release w g h
        → Move loops w v g (stored j) v h (head (j + 1))

  pub data Step (loops : ℕ) : System → System → Type 0 where
    step1 :
        {v v' : ℕ} {g g' : State} {p p' q : Pc}
        → Move loops t1 v g p v' g' p'
        → Step loops
            (record { glob = v; lock = g; pc1 = p; pc2 = q })
            (record { glob = v'; lock = g'; pc1 = p'; pc2 = q })
    step2 :
        {v v' : ℕ} {g g' : State} {p q q' : Pc}
        → Move loops t2 v g q v' g' q'
        → Step loops
            (record { glob = v; lock = g; pc1 = p; pc2 = q })
            (record { glob = v'; lock = g'; pc1 = p; pc2 = q' })

  -- both threads created, none of them started
  abbrev pub init : System
  init = record { glob = 0; lock = L.start; pc1 = head 0; pc2 = head 0 }

  pub data Reach (loops : ℕ) : System → Type 0 where
    here : Reach loops init
    next : {s t : System} → Reach loops s → Step loops s t → Reach loops t

  -- both `pthread_join` calls have returned
  pub record IsJoined (s : System) : Type 0 where
    pub first : s.pc1 ≡ returned
    pub second : s.pc2 ≡ returned
