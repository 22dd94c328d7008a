-- ===== src/Threads/Join/Weights.antt =====
-- thread_multijoin.c: what is counted over the threads, and the invariant of its runs.
use my_linux_programming_int.Prelude.{
  ℕ, ◌+◌, ◌-◌, ◌≤◌, ◌<◌, ◌≡◌, ◌⊎◌, Bool, true, false, length, arith,
}
use my_linux_programming_int.Threads.Sum.{total}
use my_linux_programming_int.Threads.Join.{
  Tstate, ts_alive, ts_terminated, ts_joined, Pc, asleep, locked, counted, marked, unlocked,
  returned, Thread, Main, creating, top, test, waiting, woken, scan, exited, System,
}

abbrev pub not_alive : Tstate → ℕ
not_alive ts_alive = 0
not_alive ts_terminated = 1
not_alive ts_joined = 1

abbrev pub is_terminated : Tstate → ℕ
is_terminated ts_terminated = 1
is_terminated ts_alive = 0
is_terminated ts_joined = 0

abbrev pub is_joined : Tstate → ℕ
is_joined ts_joined = 1
is_joined ts_alive = 0
is_joined ts_terminated = 0

-- joined by `main`
abbrev pub joined : Thread → ℕ
joined t = is_joined t.state

abbrev pub unjoined_at : Pc → Tstate → ℕ
unjoined_at counted s = 1
unjoined_at marked s = is_terminated s
unjoined_at unlocked s = is_terminated s
unjoined_at returned s = is_terminated s
unjoined_at asleep s = 0
unjoined_at locked s = 0

-- counted by the thread as terminated, and not joined yet
abbrev pub unjoined : Thread → ℕ
unjoined t = unjoined_at t.pc t.state

abbrev pub early_at : Pc → ℕ
early_at asleep = 1
early_at locked = 1
early_at counted = 0
early_at marked = 0
early_at unlocked = 0
early_at returned = 0

-- not counted as terminated yet
abbrev pub early : Thread → ℕ
early t = early_at t.pc

abbrev pub holds_at : Pc → ℕ
holds_at locked = 1
holds_at counted = 1
holds_at marked = 1
holds_at asleep = 0
holds_at unlocked = 0
holds_at returned = 0

abbrev pub holds : Thread → ℕ
holds t = holds_at t.pc

abbrev pub announces_at : Pc → ℕ
announces_at counted = 1
announces_at marked = 1
announces_at unlocked = 1
announces_at asleep = 0
announces_at locked = 0
announces_at returned = 0

-- a signal that is still to be sent for a termination already counted
abbrev pub announces : Thread → ℕ
announces t = announces_at t.pc

abbrev pub misfit_at : Pc → Tstate → ℕ
misfit_at asleep s = not_alive s
misfit_at locked s = not_alive s
misfit_at counted s = not_alive s
misfit_at marked s = 1 - is_terminated s
misfit_at unlocked s = 1 - is_terminated s
misfit_at returned s = 1 - not_alive s

-- the state does not go with the place
abbrev pub misfit : Thread → ℕ
misfit t = misfit_at t.pc t.state

abbrev pub holds_main : Main → ℕ
holds_main test = 1
holds_main (scan idx) = 1
holds_main (creating n) = 0
holds_main top = 0
holds_main waiting = 0
holds_main woken = 0
holds_main exited = 0

abbrev pub uncreated : Main → ℕ
uncreated (creating n) = n
uncreated test = 0
uncreated (scan idx) = 0
uncreated top = 0
uncreated waiting = 0
uncreated woken = 0
uncreated exited = 0

abbrev pub to_number : Bool → ℕ
to_number true = 1
to_number false = 0

pub to_number-le : (b : Bool) → to_number b ≤ 1
to_number-le true = omega arith
to_number-le false = omega arith

-- what the place of `main` says about the counters, with `w` signals to come and `l` threads
abbrev pub Fits : (v u w l : ℕ) → Main → Type 0
Fits v u w l (creating n) = Unit
Fits v u w l top = Unit
Fits v u w l test = 0 < v
Fits v u w l waiting = (0 < v) × ((u ≡ 0) ⊎ (0 < w))
Fits v u w l woken = 0 < v
Fits v u w l (scan idx) = idx ≤ l
Fits v u w l exited = v ≡ 0

pub record Inv (n : ℕ) (s : System) : Type 0 where
  pub all : length s.threads + uncreated s.main ≡ n
  pub live : s.num_live + total joined s.threads ≡ n
  pub ended : s.num_unjoined ≡ total unjoined s.threads
  pub owners : to_number s.mtx ≡ total holds s.threads + holds_main s.main
  pub fitting : total misfit s.threads ≡ 0
  pub fits : Fits s.num_live s.num_unjoined (total announces s.threads) (length s.threads) s.main
