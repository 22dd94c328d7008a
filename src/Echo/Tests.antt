-- ===== src/Echo/Tests.antt =====
-- A kernel with one connection at a time, on which a client sends one byte, and with dead children.
use my_linux_programming_int.Prelude.{
  ℕ, zero, suc, ◌<◌, ◌≤◌, ◌≡◌, refl, sym, ap, Bool, true, false, Option, none, some, [], ◌∷◌, ◌++◌,
  length, take, take-fits, Text, codes, arith, ◌==◌,
}
use my_linux_programming_int.Sys.{ok, fail, Call, Proc}
use my_linux_programming_int.Sys.Table.{set, Agree}
use my_linux_programming_int.Io.Pump.Correct.{PumpLaws}
use my_linux_programming_int.Program.After.{After}
use my_linux_programming_int.Echo.{EchoApi, grim_reaper}
use my_linux_programming_int.Echo.Reaper.{ReapLaws, Reaps, grim_reaper-Reaps}
use my_linux_programming_int.Echo.Laws.{Connection, EchoLaws}

record Net : Type 0 where
  fds : ℕ → Bool
  byte : Option ℕ
  output : Text
  zombies : ℕ
  last : Connection

abbrev bytes : Option ℕ → Text
bytes none = []
bytes (some b) = b ∷ []

abbrev deliver : ℕ → Option ℕ → Call Net Text
deliver zero v k = (ok [], k)
deliver (suc n) none k = (ok [], k)
deliver (suc n) (some b) k = (ok (b ∷ []), record k { byte = none })

abbrev connect_at : (taken : Bool) → Call Net ℕ
connect_at true k = (fail 24, k)
connect_at false k = (
  ok 5,
  record k {
    fds = set 5 true k.fds;
    byte = some 65;
    last = record { fd = 5; taken = k.output; to_come = 65 ∷ [] };
  },
)

abbrev wait_for : (zombies : ℕ) → Call Net ℕ
wait_for zero k = (fail 10, k)
wait_for (suc n) k = (ok 1, record k { zombies = n })

abbrev net_api : EchoApi Net
net_api = record {
  sockets = record {
    socket = λ d t r k. (fail 1, k);
    connect = λ fd a n k. (fail 1, k);
    bind = λ fd a n k. (fail 1, k);
    listen = λ fd n k. (fail 1, k);
    reuse_addr = λ fd k. (fail 1, k);
    close = λ fd k. (ok tt, record k { fds = set fd false k.fds });
    getaddrinfo = λ h s i k. (none, k);
    freeaddrinfo = λ l k. k;
  };
  sigaction = λ k. (ok tt, k);
  defer_accept = λ fd k. (ok tt, k);
  accept = λ lfd k. connect_at (k.fds 5) k;
  prompt = λ k. (ok tt, k);
  fork = λ k. (ok 0, k);
  waitpid = λ k. wait_for k.zombies k;
  read = λ fd n k. deliver n k.byte k;
  write = λ fd bs k. (ok (length bs), record k { output = k.output ++ bs });
}

never_fails : {A : Type 0} (a : A) (e : ℕ) → ok a ≡ fail e → ⊥
never_fails a e h = cc

ok-inj : {A : Type 0} {a b : A} → ok a ≡ ok b → a ≡ b
ok-inj e = cc

got_lem :
    (n : ℕ) (v : Option ℕ) (k : Net) (bs : Text)
    → k.byte ≡ v
    → (deliver n v k).0 ≡ ok bs
    → (bytes k.byte ≡ bs ++ bytes (deliver n v k).1.byte) × (length bs ≤ n) × (0 ≤ 0)
got_lem zero v k bs e r = rw (← ok-inj r) (refl, omega arith, omega arith)
got_lem (suc n) none k bs e r = rw (← ok-inj r) (refl, omega arith, omega arith)
got_lem (suc n) (some b) k bs e r = rw (← ok-inj r, e) (refl, omega arith, omega arith)

at_end_lem :
    (n : ℕ) (v : Option ℕ) (k : Net)
    → k.byte ≡ v
    → 0 < n
    → (deliver n v k).0 ≡ ok []
    → bytes k.byte ≡ []
at_end_lem zero v k e h r = absurd (omega arith)
at_end_lem (suc n) none k e h r = rw e refl
at_end_lem (suc n) (some b) k e h r = absurd cc

reads_never_fail : (n : ℕ) (v : Option ℕ) (k : Net) (x : ℕ) → (deliver n v k).0 ≡ fail x → ⊥
reads_never_fail zero v k x r = cc
reads_never_fail (suc n) none k x r = cc
reads_never_fail (suc n) (some b) k x r = cc

output_kept : (n : ℕ) (v : Option ℕ) (k : Net) → (deliver n v k).1.output ≡ k.output
output_kept zero v k = refl
output_kept (suc n) none k = refl
output_kept (suc n) (some b) k = refl

connected :
    (taken : Bool) (k : Net) (fd : ℕ)
    → k.fds 5 ≡ taken
    → (connect_at taken k).0 ≡ ok fd
    → (k.fds fd ≡ false) × Agree (connect_at taken k).1.fds (set fd true k.fds)
connected true k fd e r = absurd cc
connected false k fd e r = rw (← ok-inj r) (e, λ n. refl)

latest_lem :
    (taken : Bool) (k : Net) (fd : ℕ)
    → (connect_at taken k).0 ≡ ok fd
    → let k' = (connect_at taken k).1 in
      k'.last ≡ record { fd = fd; taken = k'.output; to_come = bytes k'.byte }
latest_lem true k fd r = absurd cc
latest_lem false k fd r =
    ap (λ n. record { fd = n; taken = k.output; to_come = 65 ∷ [] }) (ok-inj r)

last_kept : (n : ℕ) (v : Option ℕ) (k : Net) → (deliver n v k).1.last ≡ k.last
last_kept zero v k = refl
last_kept (suc n) none k = refl
last_kept (suc n) (some b) k = refl

at_most_one : (v : Option ℕ) → length (bytes v) ≤ 1
at_most_one none = omega arith
at_most_one (some b) = omega arith

wrote_lem :
    (bs : Text) (k : Net) (m : ℕ)
    → ok (length bs) ≡ ok m
    → (k.output ++ bs ≡ k.output ++ take m bs) × (m ≤ length bs) × (0 ≤ 0)
wrote_lem bs k m r = rw (← ok-inj r) (
  ap (λ t. k.output ++ t) (sym (take-fits (length bs) bs (omega arith))),
  omega arith,
  omega arith,
)

abbrev talk : (cfd : ℕ) → PumpLaws (net_api.read cfd) (net_api.write cfd)
talk cfd = record {
  reads = record {
    stream = λ k. bytes k.byte;
    pending = λ k. 0;
    got = λ n k bs r. got_lem n k.byte k bs refl r;
    at_end = λ n k h r. at_end_lem n k.byte k refl h r;
    kept = λ n k x r. absurd (reads_never_fail n k.byte k x r);
    interrupted = λ n k r. absurd (reads_never_fail n k.byte k 4 r);
  };
  writes = record {
    sink = λ k. k.output;
    pending = λ k. 0;
    wrote = λ bs k m r. wrote_lem bs k m r;
    kept = λ bs k x r. absurd (never_fails (length bs) x r);
    interrupted = λ bs k r. absurd (never_fails (length bs) 4 r);
  };
  read_sink = λ n k. output_kept n k.byte k;
  write_stream = λ bs k. refl;
}

abbrev net_laws : EchoLaws net_api
net_laws = record {
  opened = λ k. k.fds;
  accept_ok = λ lfd k fd r. connected (k.fds 5) k fd refl r;
  prompt_kept = λ k n. refl;
  fork_kept = λ k n. refl;
  close_drops = λ fd k n. refl;
  talk = talk;
  latest = λ k. k.last;
  accept_latest = λ lfd k fd r. latest_lem (k.fds 5) k fd r;
  prompt_still = λ k. (refl, λ cfd. (refl, refl));
  fork_still = λ k. (refl, λ cfd. (refl, refl));
  close_still = λ fd k. (refl, λ cfd. (refl, refl));
  read_latest = λ cfd n k. last_kept n k.byte k;
  write_latest = λ cfd bs k. refl;
  most = 1;
  bounded = λ cfd k. at_most_one k.byte;
}

reaped_lem :
    (z : ℕ) (k : Net) (n : ℕ)
    → k.zombies ≡ z
    → (wait_for z k).0 ≡ ok (suc n)
    → k.zombies ≡ suc (wait_for z k).1.zombies
reaped_lem zero k n e r = absurd cc
reaped_lem (suc z) k n e r = e

none_dead_lem : (z : ℕ) (k : Net) → (wait_for z k).0 ≡ ok 0 → (wait_for z k).1.zombies ≡ 0
none_dead_lem zero k r = absurd cc
none_dead_lem (suc z) k r = absurd cc

none_left_lem :
    (z : ℕ) (k : Net) (x : ℕ)
    → k.zombies ≡ z
    → (wait_for z k).0 ≡ fail x
    → (wait_for z k).1.zombies ≡ 0
none_left_lem zero k x e r = e
none_left_lem (suc z) k x e r = absurd cc

abbrev reap_laws : ReapLaws net_api
reap_laws = record {
  children = λ k. k.zombies;
  dead = λ k. k.zombies;
  reaped = λ k n r. reaped_lem k.zombies k n refl r;
  none_dead = λ k r. none_dead_lem k.zombies k r;
  none_left = λ k x r. none_left_lem k.zombies k x refl r;
}

abbrev quiet : Proc Net
quiet = record {
  errno = 4;
  kernel = record {
    fds = λ n. n == 3;
    byte = some 66;
    output = codes "old ";
    zombies = 2;
    last = record { fd = 4; taken = []; to_come = [] };
  };
}

grim_reaper-Reaps_example : Reaps net_api reap_laws 4 (grim_reaper net_api 3 quiet)
grim_reaper-Reaps_example = grim_reaper-Reaps net_api reap_laws 3 quiet (omega arith)
