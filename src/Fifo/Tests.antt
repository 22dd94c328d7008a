-- ===== src/Fifo/Tests.antt =====
-- fifo_seqnum_server.c with two requests, and an end of the requests behind them; the client.
use my_linux_programming_int.Prelude.{
  ℕ, ℤ, pos, ◌+ℤ◌, Bool, true, false, inr, ◌≡◌, refl, ap, Option, none, some, List, [], ◌∷◌, ◌++◌,
}
use my_linux_programming_int.Sys.{Reply, ok, fail, eintr, Proc}
use my_linux_programming_int.Clib.Strtol.{to_int}
use my_linux_programming_int.Program.{Result, value, ended, out_of_fuel}
use my_linux_programming_int.Program.After.{After}
use my_linux_programming_int.Fifo.{Request, FifoApi, respond, serve, opened, main}
use my_linux_programming_int.Fifo.Replay.{Event, asked, opened_fifo, wrote}
use my_linux_programming_int.Fifo.Ranges.{FifoLaws, Counts, GivesUp, main-Ranges}
use my_linux_programming_int.Fifo.Client.{whole, ClientApi}
use my_linux_programming_int.Fifo.Client.Asking.{ClientLaws}

record Served : Type 0 where
  queue : List Request
  log : List Event

abbrev next : List Request → List Event → Reply (Option Request) × Served
next [] l = (fail eintr, record { queue = []; log = l })
next (r ∷ rest) l = (ok (some r), record { queue = rest; log = l ++ asked r ∷ [] })

abbrev kernel : FifoApi Served
kernel = record {
  clear_umask = λ k. k;
  mkfifo = λ k. (ok tt, k);
  open_read = λ k. (ok 3, k);
  open_write = λ k. (ok 4, k);
  ignore_sigpipe = λ k. (ok tt, k);
  read_request = λ fd k. next k.queue k.log;
  open_client = λ path k. (ok 5, record k { log = k.log ++ opened_fifo path 5 ∷ [] });
  write_response = λ fd n k. (ok true, record k { log = k.log ++ wrote fd n ∷ [] });
  close = λ fd k. (ok tt, k);
}

ok-inj : {A : Type 0} {a b : A} → ok a ≡ ok b → a ≡ b
ok-inj e = cc

not_failed : {A : Type 0} {a : A} {e : ℕ} → ok a ≡ fail e → ⊥
not_failed h = cc

not_ok : {A : Type 0} {a : A} {e : ℕ} → fail e ≡ ok a → ⊥
not_ok h = cc

some-inj : {A : Type 0} {a b : A} → some a ≡ some b → a ≡ b
some-inj e = cc

not_none : {A : Type 0} {a : A} → some a ≡ none → ⊥
not_none e = cc

next-whole :
    (q : List Request) (l : List Event) (req : Request)
    → (next q l).0 ≡ ok (some req)
    → (next q l).1.log ≡ l ++ asked req ∷ []
next-whole [] l req e = absurd (not_ok e)
next-whole (r ∷ rest) l req e = ap (λ x. l ++ asked x ∷ []) (some-inj (ok-inj e))

next-partial : (q : List Request) (l : List Event) → (next q l).0 ≡ ok none → (next q l).1.log ≡ l
next-partial [] l e = refl
next-partial (r ∷ rest) l e = absurd (not_none (ok-inj e))

next-failed :
    (q : List Request) (l : List Event) (x : ℕ) → (next q l).0 ≡ fail x → (next q l).1.log ≡ l
next-failed [] l x e = refl
next-failed (r ∷ rest) l x e = absurd (not_failed e)

abbrev kernel_laws : FifoLaws kernel
kernel_laws = record {
  events = λ k. k.log;
  umask_kept = λ k. refl;
  mkfifo_kept = λ k. refl;
  open_read_kept = λ k. refl;
  open_write_kept = λ k. refl;
  signal_kept = λ k. refl;
  read_whole = λ fd k req e. next-whole k.queue k.log req e;
  read_partial = λ fd k e. next-partial k.queue k.log e;
  read_failed = λ fd k x e. next-failed k.queue k.log x e;
  open_ok = λ path k fd e. ap (λ n. k.log ++ opened_fifo path n ∷ []) (ok-inj e);
  open_failed = λ path k e h. absurd (not_failed h);
  written = λ fd n k. refl;
  close_kept = λ fd k. refl;
}

abbrev proc : Proc Served
proc = record {
  errno = 0;
  kernel = record {
    queue =
        record { pid = pos 100; seq_len = pos 3 } ∷ record { pid = pos 101; seq_len = pos 1 } ∷ [];
    log = [];
  };
}

abbrev returned_count : {K : Type 0} → Result ℤ × Proc K → Option ℤ
returned_count (value n, p) = some n
returned_count (ended e, p) = none
returned_count (out_of_fuel, p) = none

two_answers : returned_count (main kernel 3 proc) ≡ some (pos 4)
unfolding main opened serve respond ◌+ℤ◌ to_int
two_answers = refl

main-Ranges_example :
    After
      (Counts kernel kernel_laws proc.kernel)
      (GivesUp kernel kernel_laws proc.kernel)
      (main kernel 3 proc)
main-Ranges_example = main-Ranges kernel kernel_laws 3 proc

-- the requests that the server's FIFO has taken, and whether the client's FIFO is there
record Pipes : Type 0 where
  requests : List (ℕ × ℤ)
  there : Bool

abbrev pipes : ClientApi Pipes
pipes = record {
  pid = 100;
  dump_core = false;
  clear_umask = λ k. k;
  mkfifo = λ path k. (ok tt, record k { there = true });
  atexit = λ k. (true, k);
  open_server = λ k. (ok 3, k);
  write_request = λ fd pid len k. (ok whole, record k { requests = (pid, len) ∷ k.requests });
  open_client = λ path k. (ok 4, k);
  read_response = λ fd k. (ok (some (pos 7)), k);
  unlink = λ path k. (ok tt, record k { there = false });
}

abbrev pipes_laws : ClientLaws pipes
pipes_laws = record {
  requests = λ k. k.requests;
  there = λ k. k.there;
  umask_kept = λ k. refl;
  mkfifo_kept = λ path k. refl;
  atexit_kept = λ k. refl;
  open_server_kept = λ k. refl;
  open_client_kept = λ path k. refl;
  read_kept = λ fd k. refl;
  unlink_kept = λ path k. refl;
  unlinked = λ k. refl;
  wrote = λ fd pid len k. inr refl;
}

abbrev at_shell : Proc Pipes
at_shell = record { errno = 0; kernel = record { requests = []; there = false } }
