-- ===== src/Threads/Poll.antt =====
-- 30-thread-sync/prod_no_condvar.c: producers, and a consumer that polls. The counts on the command
-- line are not negative, and the calls on `mtx` do not fail.
pub mod Safety
use my_linux_programming_int.Prelude.{
  ℕ, ◌+◌, ◌-◌, ◌≤◌, ◌<◌, ◌≡◌, Bool, true, false, List, [], ◌∷◌, ◌++◌, leb,
}

-- Where a producer stands; `cnt` is its argument, `j` the loop variable.
pub data Producer : Type 0 where
  head : (cnt j : ℕ) → Producer  -- at the test of the `for` loop
  locked : (cnt j : ℕ) → Producer  -- before `avail++`
  counted : (cnt j : ℕ) → Producer  -- before the unlock
  returned : Producer

-- Where `main` stands; `n` is `numConsumed`.
pub data Main : Type 0 where
  creating : (args : List ℕ) → Main
  top : (n : ℕ) (done : Bool) → Main  -- head of the `for (;;)` loop
  consume : (n : ℕ) (done : Bool) → Main  -- `while (avail > 0)`, with the mutex
  after : (n : ℕ) (done : Bool) → Main  -- behind the unlock
  exited : (n : ℕ) → Main

pub record System : Type 0 where
  pub avail : ℕ
  pub mtx : Bool  -- held by some thread
  pub tot_required : ℕ
  pub main : Main
  pub producers : List Producer

-- Moves of a producer: the shared `avail` and `mtx`, and its place, before and after.
pub data Produce
    : (avail : ℕ) (mtx : Bool) → Producer → (avail' : ℕ) (mtx' : Bool) → Producer → Type 0 where
  leave : {a : ℕ} {m : Bool} {c j : ℕ} → c ≤ j → Produce a m (head c j) a m returned
  lock :
      {a : ℕ} {m : Bool} {c j : ℕ} → j < c → m ≡ false → Produce a m (head c j) a true (locked c j)
  count : {a : ℕ} {m : Bool} {c j : ℕ} → Produce a m (locked c j) (a + 1) m (counted c j)
  unlock : {a : ℕ} {m : Bool} {c j : ℕ} → Produce a m (counted c j) a false (head c (j + 1))

-- Moves of `main`, once all threads have been created; `tot` is `totRequired`.
pub data Consume (tot : ℕ)
    : (avail : ℕ) (mtx : Bool) → Main → (avail' : ℕ) (mtx' : Bool) → Main → Type 0 where
  begin : {a : ℕ} {m : Bool} → Consume tot a m (creating []) a m (top 0 false)
  lock :
      {a : ℕ} {m : Bool} {n : ℕ} {d : Bool}
      → m ≡ false
      → Consume tot a m (top n d) a true (consume n d)
  take :
      {a : ℕ} {m : Bool} {n : ℕ} {d : Bool}
      → 0 < a
      → Consume tot a m (consume n d) (a - 1) m (consume (n + 1) (leb tot (n + 1)))
  unlock :
      {a : ℕ} {m : Bool} {n : ℕ} {d : Bool}
      → a ≡ 0
      → Consume tot a m (consume n d) a false (after n d)
  again :
      {a : ℕ} {m : Bool} {n : ℕ} {d : Bool} → d ≡ false → Consume tot a m (after n d) a m (top n d)
  leave :
      {a : ℕ} {m : Bool} {n : ℕ} {d : Bool} → d ≡ true → Consume tot a m (after n d) a m (exited n)

-- A step of the program.
pub data Step : System → System → Type 0 where
  create :
      {a t : ℕ} {m : Bool} (c : ℕ) (cs : List ℕ) (ps : List Producer)
      → Step
          (record {
            avail = a;
            mtx = m;
            tot_required = t;
            main = creating (c ∷ cs);
            producers = ps;
          })
          (record {
            avail = a;
            mtx = m;
            tot_required = t + c;
            main = creating cs;
            producers = head c 0 ∷ ps;
          })
  by_main :
      {a a' t : ℕ} {m m' : Bool} {x x' : Main} {ps : List Producer}
      → Consume t a m x a' m' x'
      → Step
          (record { avail = a; mtx = m; tot_required = t; main = x; producers = ps })
          (record { avail = a'; mtx = m'; tot_required = t; main = x'; producers = ps })
  by_producer :
      {a a' t : ℕ} {m m' : Bool} {x : Main} {p p' : Producer} (before later : List Producer)
      → Produce a m p a' m' p'
      → Step
          (record {
            avail = a;
            mtx = m;
            tot_required = t;
            main = x;
            producers = before ++ p ∷ later;
          })
          (record {
            avail = a';
            mtx = m';
            tot_required = t;
            main = x;
            producers = before ++ p' ∷ later;
          })

abbrev pub init : List ℕ → System
init args = record {
  avail = 0;
  mtx = false;
  tot_required = 0;
  main = creating args;
  producers = [];
}

pub data Reach (args : List ℕ) : System → Type 0 where
  here : Reach args (init args)
  next : {s t : System} → Reach args s → Step s t → Reach args t
