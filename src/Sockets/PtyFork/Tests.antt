-- ===== src/Sockets/PtyFork/Tests.antt =====
-- A kernel that is a table of descriptors, and a run in the child.
use my_linux_programming_int.Prelude.{
  ℕ, ◌≡◌, refl, sym, ap, ◌∙◌, Option, none, some, replicate, codes, Text, ◌==◌, if◌then◌else◌,
}
use my_linux_programming_int.Sys.{Reply, ok, fail, Call, Proc}
use my_linux_programming_int.Program.After.{After}
use my_linux_programming_int.Sockets.PtyFork.{ForkApi, Request, pty_fork}
use my_linux_programming_int.Sys.Table.{set, Agree}
use my_linux_programming_int.Sockets.PtyFork.Table.{File, master, slave, other, Table, ForkTable}
use my_linux_programming_int.Sockets.PtyFork.Child.{Fails}
use my_linux_programming_int.Sockets.PtyFork.Descriptors.{Sides, pty_fork-Sides}

-- `fd` if it is free
abbrev opens_at : (fd : ℕ) (f : File) → Option File → Call Table ℕ
opens_at fd f none k = (ok fd, set fd (some f) k)
opens_at fd f (some g) k = (fail 24, k)

opens_at_lem :
    (d fd : ℕ) (f : File) (v : Option File) (k : Table)
    → k d ≡ v
    → (opens_at d f v k).0 ≡ ok fd
    → (k fd ≡ none) × Agree (opens_at d f v k).1 (set fd (some f) k)
opens_at_lem d fd f none k e r = let same : d ≡ fd = cc in (ap k (sym same) ∙ e, λ n. rw same refl)
opens_at_lem d fd f (some g) k e r = absurd cc

opens_at-fail :
    (d e : ℕ) (f : File) (v : Option File) (k : Table)
    → (opens_at d f v k).0 ≡ fail e
    → Agree (opens_at d f v k).1 k
opens_at-fail d e f none k r n = absurd cc
opens_at-fail d e f (some g) k r n = refl

abbrev name_of : Option File → Reply Text
name_of none = fail 9
name_of (some (master name)) = ok name
name_of (some (slave name)) = fail 25
name_of (some (other id)) = fail 25

name_of-master :
    (v : Option File) (n name : Text) → v ≡ some (master n) → name_of v ≡ ok name → name ≡ n
name_of-master none n name e r = absurd cc
name_of-master (some (master m)) n name e r = cc
name_of-master (some (slave m)) n name e r = absurd cc
name_of-master (some (other m)) n name e r = absurd cc

abbrev tables : ForkApi Table ℕ ℕ
tables = record {
  pty = record {
    posix_openpt = λ k. opens_at 5 (master (codes "/dev/pts/1")) (k 5) k;
    grantpt = λ fd k. (ok tt, k);
    unlockpt = λ fd k. (ok tt, k);
    ptsname = λ fd k. (name_of (k fd), k);
    close = λ fd k. (ok tt, set fd none k);
  };
  fork = λ k. (ok 0, k);
  setsid = λ k. (ok tt, k);
  open_slave = λ name k. opens_at 5 (slave name) (k 5) k;
  set_ctty = λ fd k. (ok tt, k);
  tcsetattr = λ fd t k. (ok tt, k);
  set_size = λ fd w k. (ok tt, k);
  dup2 = λ old new k. (ok new, set new (k old) k);
}

abbrev tables_laws : ForkTable tables
tables_laws = record {
  table = λ k. k;
  pts = λ k. codes "/dev/pts/1";
  pts_plain =
      λ k. (refl, (refl, (refl, (refl, (refl, (refl, (refl, (refl, (refl, (refl, tt))))))))));
  ptsname_is = λ fd k n name e r. name_of-master (k fd) n name e r;
  openpt_ok = λ k fd c. opens_at_lem 5 fd (master (codes "/dev/pts/1")) (k 5) k refl c;
  openpt_fail = λ k e c. opens_at-fail 5 e (master (codes "/dev/pts/1")) (k 5) k c;
  grantpt_kept = λ fd k n. refl;
  unlockpt_kept = λ fd k n. refl;
  ptsname_kept = λ fd k n. refl;
  close_drops = λ fd k n. refl;
  fork_kept = λ k n. refl;
  setsid_kept = λ k n. refl;
  open_ok = λ name k fd c. opens_at_lem 5 fd (slave name) (k 5) k refl c;
  ctty_kept = λ fd k n. refl;
  tcsetattr_kept = λ fd t k n. refl;
  size_kept = λ fd w k n. refl;
  dup_ok = λ old new got k c n. refl;
}

abbrev start : Proc Table
start = record { errno = 0; kernel = λ n. if n == 1 then some (other 7) else none }

abbrev request : Request ℕ ℕ
request = record {
  master_fd = 9;
  slave_name = some (replicate 20 1);
  sn_len = 20;
  slave_termios = some 3;
  slave_ws = none;
}

pty_fork-Sides_example :
    After
      (Sides tables tables_laws request start.kernel (codes "/dev/pts/1"))
      Fails
      (pty_fork tables (replicate 1000 1) request start)
pty_fork-Sides_example = pty_fork-Sides tables tables_laws (replicate 1000 1) request start
