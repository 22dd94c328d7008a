-- ===== src/PidFile/Tests.antt =====
-- A kernel with one file for process IDs, that this process or another has locked, and runs on it.
use my_linux_programming_int.Prelude.{
  ℕ, ◌≡◌, refl, if◌then◌else◌, Bool, true, false, length, take, Text, codes, Bool-cases, inl, inr,
  ◌++◌, take-fits, arith,
}
use my_linux_programming_int.Sys.{ok, fail, Call, Proc, eagain}
use my_linux_programming_int.Program.{Result, ended, fatal}
use my_linux_programming_int.PidFile.Regions.{Flock, lock_reg, lock_region}
use my_linux_programming_int.Clib.Decimal.{show_nat, digits}
use my_linux_programming_int.PidFile.{
  PidApi, cpf_cloexec, set_cloexec, not_locked, write_pid_as, write_pid, after_lock, lock_and_write,
  create_pid_file,
}
use my_linux_programming_int.PidFile.Exclusive.{PidLaws, Creates, whole, create_pid_file-Creates}

record Disk : Type 0 where
  content : Text
  mine : Bool
  other : Bool

abbrev lock : Flock → Call Disk Flock
lock fl k =
    ((if k.other then fail eagain else ok fl), record k { mine = if k.other then k.mine else true })

abbrev disk_api : PidApi Disk
disk_api = record {
  locks = record { fcntl = λ fd cmd. lock; stale = 0 };
  open_pid = λ path k. (ok 3, k);
  getfd = λ fd k. (ok 0, k);
  setfd = λ fd flags k. (ok tt, k);
  ftruncate = λ fd length k. (ok tt, record k { content = take length k.content });
  write = λ fd bs k. (ok (length bs), record k { content = k.content ++ bs });
  getpid = λ k. 1234;
}

lock-mine : (fl got : Flock) (k : Disk) → (lock fl k).0 ≡ ok got → (lock fl k).1.mine ≡ true
lock-mine fl got k e = elim (Bool-cases k.other) [ inl busy ↦ cc | inr mine ↦ rw mine refl ]

disk_laws : PidLaws disk_api
disk_laws = record {
  content = λ k. k.content;
  Owns = λ k. k.mine ≡ true;
  pid = 1234;
  same_pid = λ k. refl;
  open_kept = λ path k. refl;
  getfd_kept = λ fd k. refl;
  setfd_kept = λ fd flags k. refl;
  lock_kept = λ fd fl k. refl;
  locked = λ fd k fl e. lock-mine (whole 0) fl k e;
  truncated = λ fd k e. refl;
  truncate_owns = λ fd k mine. mine;
  written = λ fd m bs k empty e. rw (empty, take-fits m bs (ground arith)) refl;
  write_owns = λ fd bs k mine. mine;
}

abbrev free : Proc Disk
free = record {
  errno = 0;
  kernel = record { content = codes "99999999\n"; mine = false; other = false };
}

abbrev taken : Proc Disk
taken = record { errno = 0; kernel = record { content = codes "77\n"; mine = false; other = true } }

abbrev run : Proc Disk → Result ℕ × Proc Disk
run p = create_pid_file disk_api (codes "srv") (codes "/run/srv.pid") cpf_cloexec p

writes : (run free).1.kernel.content ≡ codes "1234\n"
unfolding create_pid_file set_cloexec lock_and_write after_lock lock_region lock_reg write_pid
    write_pid_as show_nat digits
writes = refl

refuses : run taken ≡ (
  ended (fatal (codes "PID file '/run/srv.pid' is locked; probably 'srv' is already running")),
  record taken { errno = eagain },
)
unfolding create_pid_file set_cloexec lock_and_write after_lock lock_region lock_reg not_locked
refuses = refl

create_pid_file-Creates_example : Creates disk_api disk_laws (codes "99999999\n") (run free)
unfolding disk_laws
create_pid_file-Creates_example =
    create_pid_file-Creates disk_api disk_laws (codes "srv") (codes "/run/srv.pid") cpf_cloexec free
