-- ===== src/Threads/Prod/Invariant.antt =====
-- prod_condvar.c: units and wakeups, counted over the threads.
use my_linux_programming_int.Prelude.{
  ℕ, ◌+◌, ◌-◌, ◌≤◌, ◌<◌, ◌≡◌, refl, sym, ap, ◌⊎◌, inl, Bool, true, false, List, [], ◌∷◌, leb, arith,
}
use mathlib.Core.Path.{subst}
use my_linux_programming_int.Threads.Sum.{total, total-focus}
use my_linux_programming_int.Threads.Prod.Steps.{
  Producer, head, locked, counted, unlocked, returned, Main, creating, top, test, waiting, woken,
  consume, after, exited, System, Produce, signal, Consume, begin, wait, relock, found, take, again,
  Step, create, by_main, by_producer, signalling, Spurious, wake, Reach, here, next, wake_up,
}

-- units that a producer has still to make available
abbrev pub owes : Producer → ℕ
owes (head c j) = c - j
owes (locked c j) = c - j
owes (counted c j) = c - j - 1
owes (unlocked c j) = c - j - 1
owes returned = 0

abbrev pub holds : Producer → ℕ
holds (locked c j) = 1
holds (counted c j) = 1
holds (head c j) = 0
holds (unlocked c j) = 0
holds returned = 0

-- a signal that is still to be sent for a unit already counted
abbrev pub announces : Producer → ℕ
announces (counted c j) = 1
announces (unlocked c j) = 1
announces (head c j) = 0
announces (locked c j) = 0
announces returned = 0

-- inside the loop, `j` is below `cnt`
abbrev pub misfit : Producer → ℕ
misfit (head c j) = 0
misfit (locked c j) = 1 - (c - j)
misfit (counted c j) = 1 - (c - j)
misfit (unlocked c j) = 1 - (c - j)
misfit returned = 0

abbrev pub holds_main : Main → ℕ
holds_main (test n) = 1
holds_main (consume n d) = 1
holds_main (creating args) = 0
holds_main (top n) = 0
holds_main (waiting n) = 0
holds_main (woken n) = 0
holds_main (after n d) = 0
holds_main (exited n) = 0

abbrev pub consumed : Main → ℕ
consumed (creating args) = 0
consumed (top n) = n
consumed (test n) = n
consumed (waiting n) = n
consumed (woken n) = n
consumed (consume n d) = n
consumed (after n d) = n
consumed (exited n) = n

abbrev pub to_number : Bool → ℕ
to_number true = 1
to_number false = 0

-- what the place of `main` says about the counters
abbrev pub Fits : (avail tot signals : ℕ) → Main → Type 0
Fits a t w (creating args) = Unit
Fits a t w (top n) = (n < t) ⊎ (t ≡ 0)
Fits a t w (test n) = (n < t) ⊎ (t ≡ 0)
Fits a t w (waiting n) = ((n < t) ⊎ (t ≡ 0)) × ((0 < a) → (0 < w))
Fits a t w (woken n) = (n < t) ⊎ (t ≡ 0)
Fits a t w (consume n d) = (0 < a) ⊎ ((d ≡ leb t n) × (0 < n))
Fits a t w (after n d) = (d ≡ leb t n) × (0 < n)
Fits a t w (exited n) = (t ≤ n) × (0 < n)

-- The counters beside the producers, by the sums over these.
pub record Counts (avail : ℕ) (mtx : Bool) (tot : ℕ) (main : Main) (owed held signals : ℕ)
    : Type 0 where
  pub units : consumed main + avail + owed ≡ tot
  pub owners : to_number mtx ≡ held + holds_main main
  pub fits : Fits avail tot signals main

-- One unit and one announcement more fit everywhere.
Fits-count : (a t o w : ℕ) (x : Main) → Fits a t (0 + w) x → Fits (a + 1) t (1 + w) x
Fits-count a t o w (creating args) f = tt
Fits-count a t o w (waiting n) f = (f.0, λ _. omega arith)
Fits-count a t o w (consume n d) f = inl (omega arith)
Fits-count a t o w (top n) f = f
Fits-count a t o w (test n) f = f
Fits-count a t o w (woken n) f = f
Fits-count a t o w (after n d) f = f
Fits-count a t o w (exited n) f = f

pub to_number-le : (b : Bool) → to_number b ≤ 1
to_number-le true = omega arith
to_number-le false = omega arith

Consume-Counts :
    {t a a' o h w : ℕ} {m m' : Bool} {x x' : Main}
    → Consume t a m x a' m' x'
    → Counts a m t x o h w
    → Counts a' m' t x' o h w
Consume-Counts begin i = ground (arith, i.units, i.owners)
Consume-Counts (Consume.lock e) i = ground (arith, i.units, i.owners, i.fits)
Consume-Counts (wait e) i = ground (arith, i.units, i.owners, i.fits)
Consume-Counts (relock e) i = ground (arith, i.units, i.owners, i.fits)
Consume-Counts (found e) i = ground (arith, i.units, i.owners, i.fits)
Consume-Counts (take e) i = ground (arith, i.units, i.owners, i.fits)
Consume-Counts (Consume.unlock e) i = ground (arith, i.units, i.owners, i.fits)
Consume-Counts (again e) i = ground (arith, i.units, i.owners, i.fits)
Consume-Counts (Consume.leave e) i = ground (arith, i.units, i.owners, i.fits)

Produce-Counts :
    {t a a' : ℕ} {m m' : Bool} {p p' : Producer} {x : Main}
    → Produce a m p a' m' p'
    → (o h w : ℕ) → Counts a m t x (owes p + o) (holds p + h) (announces p + w)
    → misfit p ≡ 0
    → Counts a' m' t x (owes p' + o) (holds p' + h) (announces p' + w) × (misfit p' ≡ 0)
Produce-Counts (Produce.leave e) o h w i f =
    (record { units = omega (arith, i.units); owners = i.owners; fits = i.fits }, refl)
Produce-Counts (Produce.lock e z) o h w i f =
    (record { units = i.units; owners = ground (arith, i.owners); fits = i.fits }, omega arith)
Produce-Counts {t} {a} {x} Produce.count o h w i f = (
  record { units = omega (arith, i.units); owners = i.owners; fits = Fits-count a t o w x i.fits },
  omega arith,
)
Produce-Counts (Produce.unlock {m}) o h w i f =
    (record { units = i.units; owners = omega (arith, i.owners, to_number-le m); fits = i.fits }, f)

signal-Counts :
    {t a : ℕ} {m : Bool} (x : Main) (c j o h w : ℕ)
    → Counts a m t x
        (owes (unlocked c j) + o)
        (holds (unlocked c j) + h)
        (announces (unlocked c j) + w)
    → misfit (unlocked c j) ≡ 0
    → Counts a m t
        (signal x)
        (owes (head c (j + 1)) + o)
        (holds (head c (j + 1)) + h)
        (announces (head c (j + 1)) + w)
signal-Counts (waiting n) c j o h w i f = record {
  units = omega (arith, i.units);
  owners = i.owners;
  fits = i.fits.0;
}
signal-Counts (creating args) c j o h w i f = record {
  units = omega (arith, i.units);
  owners = i.owners;
  fits = tt;
}
signal-Counts x c j o h w i f = record {
  units = omega (arith, i.units);
  owners = i.owners;
  fits = i.fits;
}

recount :
    {a t o o' h h' w w' : ℕ} {m : Bool} (x : Main)
    → o ≡ o'
    → h ≡ h'
    → w ≡ w'
    → Counts a m t x o h w
    → Counts a m t x o' h' w'
recount {a} {t} x e f g i = record {
  units = omega (arith, i.units);
  owners = omega (arith, i.owners);
  fits = subst (λ k. Fits a t k x) g i.fits;
}

pub record Inv (s : System) : Type 0 where
  pub counts :
      Counts s.avail s.mtx s.tot_required s.main
        (total owes s.producers)
        (total holds s.producers)
        (total announces s.producers)
  pub in_loop : total misfit s.producers ≡ 0

Step-Inv : {s t : System} → Step s t → Inv s → Inv t
Step-Inv (create c cs ps) i = record {
  counts = record {
    units = unfold total in omega (arith, i.counts.units);
    owners = unfold total in omega (arith, i.counts.owners);
    fits = tt;
  };
  in_loop = unfold total in omega (arith, i.in_loop);
}
Step-Inv (by_main m) i = record { counts = Consume-Counts m i.counts; in_loop = i.in_loop }
Step-Inv (by_producer {x} {p} {p'} before later m) i =
    let o = total owes before + total owes later in
    let h = total holds before + total holds later in
    let w = total announces before + total announces later in
    let f = total-focus misfit before later p in
    let (c, fit) =
      Produce-Counts m o h w
        (recount x (total-focus owes before later p) (total-focus holds before later p)
          (total-focus announces before later p) i.counts)
        (omega (arith, i.in_loop)) in
    record {
      counts =
          recount x (sym (total-focus owes before later p'))
            (sym (total-focus holds before later p')) (sym (total-focus announces before later p'))
            c;
      in_loop = omega (arith, total-focus misfit before later p', i.in_loop);
    }
Step-Inv (signalling {x} c j before later) i =
    let p = unlocked c j in
    let p' = head c (j + 1) in
    let o = total owes before + total owes later in
    let h = total holds before + total holds later in
    let w = total announces before + total announces later in
    let f = total-focus misfit before later p in
    record {
      counts =
          recount (signal x) (sym (total-focus owes before later p'))
            (sym (total-focus holds before later p')) (sym (total-focus announces before later p'))
            (signal-Counts x c j o h w
              (recount x (total-focus owes before later p) (total-focus holds before later p)
                (total-focus announces before later p) i.counts)
              (omega (arith, i.in_loop)));
      in_loop = omega (arith, total-focus misfit before later p', i.in_loop);
    }

Spurious-Inv : {s t : System} → Spurious s t → Inv s → Inv t
Spurious-Inv wake i = record {
  counts = record { units = i.counts.units; owners = i.counts.owners; fits = i.counts.fits.0 };
  in_loop = i.in_loop;
}

pub Reach-Inv : {args : List ℕ} {s : System} → Reach args s → Inv s
Reach-Inv here = record {
  counts = record { units = unfold total in refl; owners = unfold total in refl; fits = tt };
  in_loop = unfold total in refl;
}
Reach-Inv (next r st) = Step-Inv st (Reach-Inv r)
Reach-Inv (wake_up r st) = Spurious-Inv st (Reach-Inv r)

-- the units that all threads will produce
abbrev pub sum : List ℕ → ℕ
sum [] = 0
sum (c ∷ cs) = c + sum cs

abbrev pub uncreated : Main → ℕ
uncreated (creating args) = sum args
uncreated (top n) = 0
uncreated (test n) = 0
uncreated (waiting n) = 0
uncreated (woken n) = 0
uncreated (consume n d) = 0
uncreated (after n d) = 0
uncreated (exited n) = 0

Consume-uncreated :
    {t a a' : ℕ} {m m' : Bool} {x x' : Main} → Consume t a m x a' m' x' → uncreated x ≡ uncreated x'
Consume-uncreated begin = refl
Consume-uncreated _ = refl

uncreated-signal : (x : Main) → uncreated (signal x) ≡ uncreated x
uncreated-signal (waiting n) = refl
uncreated-signal (creating args) = refl
uncreated-signal x = refl

Step-tot :
    {s t : System}
    → Step s t
    → s.tot_required + uncreated s.main ≡ t.tot_required + uncreated t.main
Step-tot (create c cs ps) = omega arith
Step-tot (by_main m) = omega (arith, Consume-uncreated m)
Step-tot (by_producer before later m) = refl
Step-tot (signalling {x} c j before later) = omega (arith, uncreated-signal x)

pub Reach-tot :
    {args : List ℕ} {s : System} → Reach args s → s.tot_required + uncreated s.main ≡ sum args
Reach-tot here = omega arith
Reach-tot (next r st) = omega (arith, Reach-tot r, Step-tot st)
Reach-tot (wake_up r wake) = Reach-tot r

-- When `main` leaves its loop it has consumed exactly as many units as the arguments add up to,
-- none is left over, no producer has one still to make, and the sum is positive.
pub exit_lem :
    {args : List ℕ} {s : System} (n : ℕ)
    → Reach args s
    → s.main ≡ exited n
    → (n ≡ sum args) × (s.avail ≡ 0) × (total owes s.producers ≡ 0) × (0 < sum args)
exit_lem {s} n r e =
    let i = Reach-Inv r in
    let (all, some_) =
      subst (Fits s.avail s.tot_required (total announces s.producers)) e i.counts.fits in
    omega (arith, Reach-tot r, i.counts.units, ap consumed e, ap uncreated e, all, some_)
