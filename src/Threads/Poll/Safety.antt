-- ===== src/Threads/Poll/Safety.antt =====
-- prod_no_condvar.c: units are neither lost nor made up, and the mutex has one owner.
use my_linux_programming_int.Prelude.{
  ℕ, ◌+◌, ◌-◌, ◌≤◌, ◌<◌, ◌≡◌, refl, sym, ap, ◌⊎◌, Bool, true, false, List, [], ◌∷◌, leb, arith,
}
use mathlib.Core.Path.{subst}
use my_linux_programming_int.Threads.Sum.{total, total-focus}
use my_linux_programming_int.Threads.Poll.{
  Producer, head, locked, counted, returned, Main, creating, top, consume, after, exited, System,
  Produce, count, Consume, begin, take, again, Step, create, by_main, by_producer, Reach, here,
  next,
}

-- units that a producer has still to make available
abbrev pub owes : Producer → ℕ
owes (head c j) = c - j
owes (locked c j) = c - j
owes (counted c j) = c - j - 1
owes returned = 0

-- producers that are between their lock and their unlock
abbrev pub holds : Producer → ℕ
holds (locked c j) = 1
holds (counted c j) = 1
holds (head c j) = 0
holds returned = 0

-- inside the loop, `j` is below `cnt`
abbrev misfit : Producer → ℕ
misfit (head c j) = 0
misfit (locked c j) = 1 - (c - j)
misfit (counted c j) = 1 - (c - j)
misfit returned = 0

abbrev pub holds_main : Main → ℕ
holds_main (consume n d) = 1
holds_main (creating args) = 0
holds_main (top n d) = 0
holds_main (after n d) = 0
holds_main (exited n) = 0

abbrev pub consumed : Main → ℕ
consumed (creating args) = 0
consumed (top n d) = n
consumed (consume n d) = n
consumed (after n d) = n
consumed (exited n) = n

abbrev to_number : Bool → ℕ
to_number true = 1
to_number false = 0

to_number-le : (b : Bool) → to_number b ≤ 1
to_number-le true = omega arith
to_number-le false = omega arith

-- what `done` says about the units consumed
abbrev Fits : (tot : ℕ) → Main → Type 0
Fits t (creating args) = Unit
Fits t (top n d) = (d ≡ false) × ((n ≡ 0) ⊎ (n < t))
Fits t (consume n d) = ((d ≡ false) × (n ≡ 0)) ⊎ ((d ≡ leb t n) × (0 < n)) ⊎ ((d ≡ false) × (n < t))
Fits t (after n d) = ((d ≡ false) × (n ≡ 0)) ⊎ ((d ≡ leb t n) × (0 < n)) ⊎ ((d ≡ false) × (n < t))
Fits t (exited n) = (t ≤ n) × (0 < n)

-- The counters beside the producers, by the sums over these.
record Counts (avail : ℕ) (mtx : Bool) (tot : ℕ) (main : Main) (owed held : ℕ) : Type 0 where
  units : consumed main + avail + owed ≡ tot
  owners : to_number mtx ≡ held + holds_main main
  fits : Fits tot main

Consume-Counts :
    {t a a' o h : ℕ} {m m' : Bool} {x x' : Main}
    → Consume t a m x a' m' x'
    → Counts a m t x o h
    → Counts a' m' t x' o h
Consume-Counts begin i = ground (arith, i.units, i.owners)
Consume-Counts (Consume.lock e) i = ground (arith, i.units, i.owners, i.fits)
Consume-Counts (take e) i = ground (arith, i.units, i.owners, i.fits)
Consume-Counts (Consume.unlock e) i = ground (arith, i.units, i.owners, i.fits)
Consume-Counts (again e) i = ground (arith, i.units, i.owners, i.fits)
Consume-Counts (Consume.leave e) i = ground (arith, i.units, i.owners, i.fits)

Produce-Counts :
    {t a a' : ℕ} {m m' : Bool} {p p' : Producer} {x : Main}
    → Produce a m p a' m' p'
    → (o h : ℕ) → Counts a m t x (owes p + o) (holds p + h)
    → misfit p ≡ 0
    → Counts a' m' t x (owes p' + o) (holds p' + h) × (misfit p' ≡ 0)
Produce-Counts (Produce.leave e) o h i f =
    (record { units = omega (arith, i.units); owners = i.owners; fits = i.fits }, refl)
Produce-Counts (Produce.lock e z) o h i f =
    (record { units = i.units; owners = ground (arith, i.owners); fits = i.fits }, omega arith)
Produce-Counts count o h i f =
    (record { units = omega (arith, i.units); owners = i.owners; fits = i.fits }, omega arith)
Produce-Counts (Produce.unlock {m}) o h i f = (
  record {
    units = omega (arith, i.units);
    owners = omega (arith, i.owners, to_number-le m);
    fits = i.fits;
  },
  refl,
)

recount :
    {a t o o' h h' : ℕ} {m : Bool} {x : Main}
    → o ≡ o'
    → h ≡ h'
    → Counts a m t x o h
    → Counts a m t x o' h'
recount e f i = record {
  units = omega (arith, i.units);
  owners = omega (arith, i.owners);
  fits = i.fits;
}

record Inv (s : System) : Type 0 where
  counts :
      Counts s.avail s.mtx s.tot_required s.main (total owes s.producers) (total holds s.producers)
  in_loop : total misfit s.producers ≡ 0

Step-Inv : {s t : System} → Step s t → Inv s → Inv t
Step-Inv (create c cs ps) i = record {
  counts = record {
    units = unfold total in omega (arith, i.counts.units);
    owners = unfold total in omega (arith, i.counts.owners);
    fits = tt;
  };
  in_loop = unfold total in omega (arith, i.in_loop);
}
Step-Inv (by_main m) i = record { counts = Consume-Counts m i.counts; in_loop = i.in_loop }
Step-Inv (by_producer {p} {p'} before later m) i =
    let o = total owes before + total owes later in
    let h = total holds before + total holds later in
    let f = total-focus misfit before later p in
    let (c, fit) =
      Produce-Counts m o h
        (recount (total-focus owes before later p) (total-focus holds before later p) i.counts)
        (omega (arith, i.in_loop)) in
    record {
      counts =
          recount (sym (total-focus owes before later p')) (sym (total-focus holds before later p'))
            c;
      in_loop = omega (arith, total-focus misfit before later p', i.in_loop);
    }

Reach-Inv : {args : List ℕ} {s : System} → Reach args s → Inv s
Reach-Inv here = record {
  counts = record { units = unfold total in refl; owners = unfold total in refl; fits = tt };
  in_loop = unfold total in refl;
}
Reach-Inv (next r st) = Step-Inv st (Reach-Inv r)

-- the units that all threads will produce
abbrev pub sum : List ℕ → ℕ
sum [] = 0
sum (c ∷ cs) = c + sum cs

abbrev uncreated : Main → ℕ
uncreated (creating args) = sum args
uncreated (top n d) = 0
uncreated (consume n d) = 0
uncreated (after n d) = 0
uncreated (exited n) = 0

Consume-uncreated :
    {t a a' : ℕ} {m m' : Bool} {x x' : Main} → Consume t a m x a' m' x' → uncreated x ≡ uncreated x'
Consume-uncreated begin = refl
Consume-uncreated _ = refl

Step-tot :
    {s t : System}
    → Step s t
    → s.tot_required + uncreated s.main ≡ t.tot_required + uncreated t.main
Step-tot (create c cs ps) = omega arith
Step-tot (by_main m) = omega (arith, Consume-uncreated m)
Step-tot (by_producer before later m) = refl

Reach-tot :
    {args : List ℕ} {s : System} → Reach args s → s.tot_required + uncreated s.main ≡ sum args
Reach-tot here = omega arith
Reach-tot (next r st) = omega (arith, Reach-tot r, Step-tot st)

-- In every reachable state of prod_no_condvar.c at most one thread is between its lock and its unlock,
-- and what has been consumed, what is available and what producers have still to make add up to
-- `totRequired`.
pub polling_lem :
    {args : List ℕ} {s : System}
    → Reach args s
    → (total holds s.producers + holds_main s.main ≤ 1)
      × (consumed s.main + s.avail + total owes s.producers ≡ s.tot_required)
polling_lem {s} r =
    let i = Reach-Inv r in (omega (arith, i.counts.owners, to_number-le s.mtx), i.counts.units)

-- When `main` of prod_no_condvar.c leaves its loop it has consumed exactly as many units as the
-- arguments add up to, none is left over or still to be made, and the sum is positive.
pub polling_exit :
    {args : List ℕ} {s : System} (n : ℕ)
    → Reach args s
    → s.main ≡ exited n
    → (n ≡ sum args) × (s.avail ≡ 0) × (total owes s.producers ≡ 0) × (0 < sum args)
polling_exit {s} n r e =
    let i = Reach-Inv r in
    let (all, some_) = subst (Fits s.tot_required) e i.counts.fits in
    omega (arith, Reach-tot r, i.counts.units, ap consumed e, ap uncreated e, all, some_)
