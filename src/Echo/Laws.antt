-- ===== src/Echo/Laws.antt =====
-- 60-socket-design/is_echo_sv.c: what the server relies on.
use my_linux_programming_int.Prelude.{ℕ, ◌≤◌, ◌≡◌, Bool, true, false, length, Text}
use my_linux_programming_int.Sys.{Call, ok}
use my_linux_programming_int.Sys.Table.{set, Agree}
use my_linux_programming_int.Io.Pump.Correct.{PumpLaws}
use my_linux_programming_int.Echo.{EchoApi}

-- A connection when it was accepted: its descriptor, what that had taken, and all that will come.
pub record Connection : Type 0 where
  pub fd : ℕ
  pub taken : Text
  pub to_come : Text

-- A call that leaves the connections alone.
abbrev pub Still :
    {K A : Type 0} (sink stream : ℕ → K → Text) (latest : K → Connection) → Call K A → Type 0
Still {K = K} sink stream latest f =
    (k : K)
    → (latest (f k).1 ≡ latest k)
      × ((cfd : ℕ) → (sink cfd (f k).1 ≡ sink cfd k) × (stream cfd (f k).1 ≡ stream cfd k))

-- What the server relies on: `opened` says which descriptors the running process has open, and `talk`
-- is what a connection delivers and takes, of which no more than `most` bytes are to come; `latest` is
-- the connection that was accepted last.
pub record EchoLaws {K : Type 0} (os : EchoApi K) : Type 0 where
  pub opened : K → ℕ → Bool
  pub accept_ok :
      (lfd : ℕ) (k : K) (fd : ℕ)
      → (os.accept lfd k).0 ≡ ok fd
      → (opened k fd ≡ false) × Agree (opened (os.accept lfd k).1) (set fd true (opened k))
  pub prompt_kept : (k : K) → Agree (opened (os.prompt k).1) (opened k)
  pub fork_kept : (k : K) → Agree (opened (os.fork k).1) (opened k)
  pub close_drops :
      (fd : ℕ) (k : K) → Agree (opened (os.sockets.close fd k).1) (set fd false (opened k))
  pub talk : (cfd : ℕ) → PumpLaws (os.read cfd) (os.write cfd)
  pub latest : K → Connection
  pub accept_latest :
      (lfd : ℕ) (k : K) (fd : ℕ)
      → (os.accept lfd k).0 ≡ ok fd
      → let k' = (os.accept lfd k).1 in
        latest k'
        ≡ record { fd = fd; taken = (talk fd).writes.sink k'; to_come = (talk fd).reads.stream k' }
  pub prompt_still :
      Still (λ cfd. (talk cfd).writes.sink) (λ cfd. (talk cfd).reads.stream) latest os.prompt
  pub fork_still :
      Still (λ cfd. (talk cfd).writes.sink) (λ cfd. (talk cfd).reads.stream) latest os.fork
  pub close_still :
      (fd : ℕ)
      → Still
          (λ cfd. (talk cfd).writes.sink)
          (λ cfd. (talk cfd).reads.stream)
          latest
          (os.sockets.close fd)
  pub read_latest : (cfd n : ℕ) (k : K) → latest (os.read cfd n k).1 ≡ latest k
  pub write_latest : (cfd : ℕ) (bs : Text) (k : K) → latest (os.write cfd bs k).1 ≡ latest k
  pub most : ℕ
  pub bounded : (cfd : ℕ) (k : K) → length ((talk cfd).reads.stream k) ≤ most
