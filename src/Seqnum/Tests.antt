-- ===== src/Seqnum/Tests.antt =====
-- is_seqnum_sv.c with clients that each ask for three numbers.
use my_linux_programming_int.Prelude.{
  ℕ, zero, suc, ◌≤◌, ◌<◌, ◌≡◌, refl, ap, ◌⊎◌, some, List, [], ◌∷◌, ◌++◌, length, Text, codes, arith,
}
use my_linux_programming_int.Sys.{ok, fail, eintr, Call, Proc}
use my_linux_programming_int.Io.Laws.{ReadLaws}
use my_linux_programming_int.Clib.Decimal.{show_int, show_nat, digits}
use my_linux_programming_int.Sockets.Api.{Api}
use my_linux_programming_int.Seqnum.{SeqApi, serve, handle}
use my_linux_programming_int.Program.After.{After}
use my_linux_programming_int.Seqnum.Log.{Event, accepted, sent, SeqLaws}
use my_linux_programming_int.Seqnum.Ranges.{Never, Served, serve-Served}
use my_linux_programming_int.Seqnum.Exchange.{Answered, Unread, handle-request}

-- what the current client has still to deliver
data Ahead : Type 0 where
  all newline nothing : Ahead

abbrev text : Ahead → Text
text all = codes "3\n"
text newline = codes "\n"
text nothing = []

abbrev read : ℕ → Call Ahead Text
read zero k = (ok [], k)
read (suc n) all = (ok (codes "3"), newline)
read (suc n) newline = (ok (codes "\n"), nothing)
read (suc n) nothing = (ok [], nothing)

ok-inj : {A : Type 0} {a b : A} → ok a ≡ ok b → a ≡ b
ok-inj e = cc

got :
    (n : ℕ) (k : Ahead) (bs : Text)
    → (read n k).0 ≡ ok bs
    → (text k ≡ bs ++ text (read n k).1) × (length bs ≤ n) × (0 ≤ 0)
got zero k bs e = rw (← ok-inj e) (refl, omega arith, omega arith)
got (suc n) all bs e = rw (← ok-inj e) (refl, omega arith, omega arith)
got (suc n) newline bs e = rw (← ok-inj e) (refl, omega arith, omega arith)
got (suc n) nothing bs e = rw (← ok-inj e) (refl, omega arith, omega arith)

at_end : (n : ℕ) (k : Ahead) → 0 < n → (read n k).0 ≡ ok [] → text k ≡ []
at_end zero k h e = absurd (omega arith)
at_end (suc n) all h e = absurd (cc)
at_end (suc n) newline h e = absurd (cc)
at_end (suc n) nothing h e = refl

no_failure : (n : ℕ) (k : Ahead) (e : ℕ) → (read n k).0 ≡ fail e → ⊥
no_failure zero k e h = cc
no_failure (suc n) all e h = cc
no_failure (suc n) newline e h = cc
no_failure (suc n) nothing e h = cc

record Line : Type 0 where
  ahead : Ahead
  log : List Event

abbrev deliver : ℕ → Call Line Text
deliver n k = ((read n k.ahead).0, record k { ahead = (read n k.ahead).1 })

abbrev laws : ReadLaws deliver
laws = record {
  stream = λ k. text k.ahead;
  pending = λ k. 0;
  got = λ n k bs e. got n k.ahead bs e;
  at_end = λ n k h e. at_end n k.ahead h e;
  kept = λ n k e h. absurd (no_failure n k.ahead e h);
  interrupted = λ n k h. absurd (no_failure n k.ahead eintr h);
}

abbrev sockets : Api Line
sockets = record {
  socket = λ d t r k. (ok 3, k);
  connect = λ fd a n k. (ok tt, k);
  bind = λ fd a n k. (ok tt, k);
  listen = λ fd n k. (ok tt, k);
  reuse_addr = λ fd k. (ok tt, k);
  close = λ fd k. (ok tt, k);
  getaddrinfo = λ h s i k. (some [], k);
  freeaddrinfo = λ l k. k;
}

abbrev kernel : SeqApi Line
kernel = record {
  sockets = sockets;
  ignore_sigpipe = λ k. (ok tt, k);
  accept = λ fd k. (ok 4, record { ahead = all; log = k.log ++ accepted 4 (text all) ∷ [] });
  read = λ fd. deliver;
  write = λ fd s k. (ok (length s), record k { log = k.log ++ sent fd s ∷ [] });
}

not_failed : {A : Type 0} {a : A} {e : ℕ} → ok a ≡ fail e → ⊥
not_failed h = cc

abbrev seq_laws : SeqLaws kernel 3
seq_laws = record {
  events = λ k. k.log;
  reads = λ cfd. laws;
  short = λ lfd cfd k e. omega arith;
  accept_ok = λ lfd cfd k e. ap (λ n. k.log ++ accepted n (text all) ∷ []) (ok-inj e);
  accept_failed = λ lfd k e h. absurd (not_failed h);
  read_notes = λ cfd. record {
    read_ok = λ n k bs e. refl;
    read_interrupted = λ n k e. refl;
    read_failed = λ n k x e d. absurd (no_failure n k.ahead x e);
  };
  written = λ cfd s k. refl;
  close_kept = λ cfd k. refl;
}

abbrev proc : Proc Line
proc = record { errno = 0; kernel = record { ahead = all; log = [] } }

serve-Served_example :
    After (Served kernel 3 seq_laws 4294967294 []) Never (serve kernel 2 3 3 4294967294 proc)
serve-Served_example = serve-Served kernel 3 seq_laws 2 3 4294967294 proc

handle-request_example :
    After
      (λ next k.
        Answered kernel 3 7 4 2 seq_laws proc next k ⊎ Unread kernel 3 7 4 2 seq_laws proc next k)
      (λ e k. ⊥)
      (handle kernel 3 7 4 proc)
handle-request_example =
    handle-request 2 [] (omega arith) (unfold show_int show_nat digits in omega arith) kernel 3 7 4
      seq_laws proc (unfold show_int show_nat digits in refl) (omega arith)
