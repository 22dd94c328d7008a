-- ===== src/Io/Tests.antt =====
-- A kernel with one input, that signal handlers interrupt a number of times, and one output; and the
-- transfers on it.
use my_linux_programming_int.Prelude.{
  ℕ, zero, suc, ◌≤◌, ◌<◌, ◌≡◌, refl, sym, false, [], ◌∷◌, ◌++◌, length, length-take, take, drop,
  take-fits, take-append-drop, Text, codes, arith,
}
use my_linux_programming_int.Sys.{Reply, ok, fail, Call, Proc, eintr}
use my_linux_programming_int.Io.Laws.{ReadLaws, WriteLaws}
use my_linux_programming_int.Io.Pump.{pump}
use my_linux_programming_int.Io.Pump.Correct.{PumpLaws, pump_lem}
use my_linux_programming_int.Io.Copy.{FileSys, main}
use my_linux_programming_int.Io.Copy.Correct.{CopyLaws, Copied, main-Copied}
use my_linux_programming_int.Io.Xfr.{XfrApi, client, handle}
use my_linux_programming_int.Io.Xfr.Relay.{Sent, client-Sent, Relays, handle-Relays}
use my_linux_programming_int.Io.ReadLine.{read_line}
use my_linux_programming_int.Io.ReadLine.Bound.{Within, read_line-Within}
use my_linux_programming_int.Io.ReadLine.Correct
use my_linux_programming_int.Io.ReadLine.Correct.{read_line_lem}
use my_linux_programming_int.Io.Rdwrn.{readn, writen}
use my_linux_programming_int.Io.Rdwrn.Readn
use my_linux_programming_int.Io.Rdwrn.Readn.{readn_lem}
use my_linux_programming_int.Io.Rdwrn.Writen
use my_linux_programming_int.Io.Rdwrn.Writen.{writen_lem}

record Files : Type 0 where
  input : Text
  signals : ℕ
  output : Text

abbrev deliver : (n : ℕ) → Files → ℕ → Reply Text × Files
deliver n k zero = (ok (take n k.input), record k { input = drop n k.input })
deliver n k (suc i) = (fail eintr, record k { signals = i })

abbrev read : ℕ → Call Files Text
read n k = deliver n k k.signals

abbrev write : Text → Call Files ℕ
write bs k = (ok (length bs), record k { output = k.output ++ bs })

take_nil : (n : ℕ) (xs : Text) → 0 < n → take n xs ≡ [] → xs ≡ []
take_nil (suc n) [] h e = refl
take_nil (suc n) (x ∷ xs) h e = absurd (cc)
take_nil zero xs h e = absurd (omega arith)

abbrev Got : (n : ℕ) (k : Files) → Reply Text × Files → Text → Type 0
Got n k r bs = (k.input ≡ bs ++ r.1.input) × (length bs ≤ n) × (r.1.signals ≤ k.signals)

ok-inj : {A : Type 0} {a b : A} → ok a ≡ ok b → a ≡ b
ok-inj e = cc

delivered :
    (n : ℕ) (k : Files) (i : ℕ) (bs : Text)
    → k.signals ≡ i
    → (deliver n k i).0 ≡ ok bs
    → Got n k (deliver n k i) bs
delivered n k zero bs s e =
    rw (← ok-inj e)
      (sym (take-append-drop n k.input), omega (arith, length-take n k.input), omega arith)
delivered n k (suc i) bs s e = absurd (cc)

at_end_of : (n : ℕ) (k : Files) (i : ℕ) → 0 < n → (deliver n k i).0 ≡ ok [] → k.input ≡ []
at_end_of n k zero h e = take_nil n k.input h (ok-inj e)
at_end_of n k (suc i) h e = absurd (cc)

kept_by :
    (n : ℕ) (k : Files) (i e : ℕ) → (deliver n k i).0 ≡ fail e → (deliver n k i).1.input ≡ k.input
kept_by n k zero e h = absurd (cc)
kept_by n k (suc i) e h = refl

fewer :
    (n : ℕ) (k : Files) (i : ℕ)
    → k.signals ≡ i
    → (deliver n k i).0 ≡ fail eintr
    → (deliver n k i).1.signals < k.signals
fewer n k zero s h = absurd (cc)
fewer n k (suc i) s h = omega (arith, s)

output-deliver : (n : ℕ) (k : Files) (i : ℕ) → (deliver n k i).1.output ≡ k.output
output-deliver n k zero = refl
output-deliver n k (suc i) = refl

abbrev reads : ReadLaws read
reads = record {
  stream = λ k. k.input;
  pending = λ k. k.signals;
  got = λ n k bs e. delivered n k k.signals bs refl e;
  at_end = λ n k h e. at_end_of n k k.signals h e;
  kept = λ n k e h. kept_by n k k.signals e h;
  interrupted = λ n k h. fewer n k k.signals refl h;
}

wrote_all :
    (bs : Text) (k : Files) (m : ℕ)
    → (write bs k).0 ≡ ok m
    → ((write bs k).1.output ≡ k.output ++ take m bs) × (m ≤ length bs) × (0 ≤ 0)
wrote_all bs k m e =
    rw (← ok-inj e, take-fits (length bs) bs (omega arith)) (refl, omega arith, omega arith)

not_failed : {A : Type 0} (a : A) (e : ℕ) → ok a ≡ fail e → ⊥
not_failed a e h = cc

abbrev writes : WriteLaws write
writes = record {
  sink = λ k. k.output;
  pending = λ k. 0;
  wrote = wrote_all;
  kept = λ bs k e h. absurd (not_failed (length bs) e h);
  interrupted = λ bs k h. absurd (not_failed (length bs) eintr h);
}

abbrev laws : PumpLaws read write
laws = record {
  reads = reads;
  writes = writes;
  read_sink = λ n k. output-deliver n k k.signals;
  write_stream = λ bs k. refl;
}

abbrev proc : (input : Text) (signals : ℕ) → Proc Files
proc s i = record { errno = 0; kernel = record { input = s; signals = i; output = codes "old " } }

read_line_lem_example :
    Correct.Outcome read reads 4 []
      (codes "hello\nyou")
      (read_line read 20 false 4 (proc (codes "hello\nyou") 2))
read_line_lem_example =
    read_line_lem read reads 20 4 (proc (codes "hello\nyou") 2) (omega arith) (omega arith)

read_line-Within_example : Within 4 (read_line read 20 false 4 (proc (codes "hello\nyou") 2))
read_line-Within_example = read_line-Within read 20 false 4 (proc (codes "hello\nyou") 2)

readn_lem_example :
    Readn.Outcome read reads 7 (codes "hello you") (readn read 20 7 (proc (codes "hello you") 3))
readn_lem_example = readn_lem read reads 20 7 (proc (codes "hello you") 3) (omega arith)

writen_lem_example :
    Writen.Outcome write writes 3 (codes "old you") (writen write 5 (codes "you") (proc [] 0))
writen_lem_example = writen_lem write writes 5 (codes "you") (proc [] 0) (omega arith)

pump_lem_example :
    my_linux_programming_int.Io.Pump.Correct.Outcome read write laws 4
      (codes "old hello you")
      (pump read write 12 4 (proc (codes "hello you") 0))
pump_lem_example =
    pump_lem read write laws 12 4 (proc (codes "hello you") 0) (omega arith) (omega arith)

abbrev files : FileSys Files
files = record {
  open_read = λ path k. (ok 3, k);
  open_trunc = λ path k. (ok 4, record k { output = [] });
  read = λ fd. read;
  write = λ fd. write;
  close = λ fd k. (ok tt, k);
}

abbrev copy_laws : CopyLaws files 3 4
copy_laws = record { moves = laws; close_sink = λ fd k. refl }

main-Copied_example :
    Copied files 3 4 copy_laws
      (codes "hello")
      (main files 9 (codes "copy" ∷ codes "a" ∷ codes "b" ∷ []) (proc (codes "hello") 0))
main-Copied_example =
    main-Copied files 3 4 copy_laws 9 (codes "copy") (codes "a") (codes "b")
      (proc (codes "hello") 0) refl refl refl (omega arith)

abbrev sockets : XfrApi Files
sockets = record {
  socket = λ k. (ok 3, k);
  connect = λ fd addr k. (ok tt, k);
  remove = λ path k. (ok tt, k);
  bind = λ fd addr k. (ok tt, k);
  listen = λ fd n k. (ok tt, k);
  accept = λ fd k. (ok 4, k);
  read = λ fd. read;
  write = λ fd. write;
  close = λ fd k. (ok tt, k);
}

client-Sent_example :
    Sent sockets 3 laws (codes "old hello") (client sockets 9 (proc (codes "hello") 0))
client-Sent_example = client-Sent sockets 3 laws 9 (proc (codes "hello") 0) refl refl (omega arith)

handle-Relays_example :
    Relays sockets 4 laws
      (λ k. refl)
      (codes "old hello")
      (handle sockets 9 4 (proc (codes "hello") 0))
handle-Relays_example =
    handle-Relays sockets 4 laws (λ k. refl) 9 (proc (codes "hello") 0) (omega arith)
