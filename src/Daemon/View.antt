-- ===== src/Daemon/View.antt =====
-- lib/become_daemon.c: what a process has, and what a daemon has and has not.
use my_linux_programming_int.Prelude.{
  ℕ, zero, suc, ◌+◌, ◌≡◌, ◌⊎◌, refl, inl, Bool, true, false, ltb, leb, ◌&&◌, Option, none, some,
  if◌then◌else◌, Text, codes, arith,
}
use my_linux_programming_int.Sys.{ok, fail}
use my_linux_programming_int.Sys.Table.{set, Agree}
use my_linux_programming_int.Program.{Exit, success}
use my_linux_programming_int.GetNum.{has_flag}
use my_linux_programming_int.Daemon.{
  DaemonApi, bd_no_chdir, bd_no_close_files, bd_no_reopen_std_fds, bd_no_umask0, max_fd, dev_null,
}

-- What the process that runs has: the files behind its descriptors, whether it leads its session and
-- has a terminal, its file mode creation mask and its directory.
pub record View : Type 0 where
  pub table : ℕ → Option Text
  pub leader : Bool
  pub terminal : Bool
  pub mask : ℕ
  pub cwd : Text
  pub barred : Bool  -- whether it may not go to the root directory

-- What the calls do to it. A child that fork() makes leads no session, and setsid() makes a leader
-- without a terminal.
pub record DaemonLaws {K : Type 0} (os : DaemonApi K) : Type 0 where
  pub view : K → View
  pub fork_child :
      (k : K) → (os.fork k).0 ≡ ok 0 → view (os.fork k).1 ≡ record (view k) { leader = false }
  pub setsid_ok :
      (k : K) (u : Unit {0})
      → (os.setsid k).0 ≡ ok u
      → view (os.setsid k).1 ≡ record (view k) { leader = true; terminal = false }
  pub umask_sets : (m : ℕ) (k : K) → view (os.umask m k) ≡ record (view k) { mask = m }
  pub chdir_ok :
      (d : Text) (k : K) (u : Unit {0})
      → (os.chdir d k).0 ≡ ok u
      → view (os.chdir d k).1 ≡ record (view k) { cwd = d }
  pub root_fail :
      (k : K) (e : ℕ)
      → (os.chdir (codes "/") k).0 ≡ fail e
      → ((view k).barred ≡ true) × (view (os.chdir (codes "/") k).1 ≡ view k)
  pub close_drops :
      (fd : ℕ) (k : K)
      → view (os.close fd k).1 ≡ record (view k) { table = set fd none (view k).table }
  pub open_ok :
      (path : Text) (k : K) (fd : ℕ)
      → (os.open_rdwr path k).0 ≡ ok fd
      → view (os.open_rdwr path k).1 ≡ record (view k) { table = set fd (some path) (view k).table }
  pub dup_ok :
      (old new got : ℕ) (k : K)
      → (os.dup2 old new k).0 ≡ ok got
      → view (os.dup2 old new k).1
        ≡ record (view k) { table = set new ((view k).table old) (view k).table }

-- the table after the loop that closes
abbrev pub cleared : (fd count : ℕ) → (ℕ → Option Text) → ℕ → Option Text
cleared fd zero t = t
cleared fd (suc count) t = cleared (suc fd) count (set fd none t)

pub cleared_lem :
    (fd count : ℕ) (t : ℕ → Option Text) (n : ℕ)
    → cleared fd count t n ≡ (if leb fd n && ltb n (fd + count) then none else t n)
cleared_lem fd zero t n = ground arith
cleared_lem fd (suc count) t n = ground (arith, cleared_lem (suc fd) count (set fd none t) n)

-- What the flags ask for, of a view `v` of the process before.
abbrev pub masked : (flags : ℕ) → View → ℕ
masked flags v = if has_flag flags bd_no_umask0 then v.mask else 0

abbrev pub closed : (flags : ℕ) (open_max : Option ℕ) → (ℕ → Option Text) → ℕ → Option Text
closed flags open_max t n =
    if has_flag flags bd_no_close_files
    then t n
    else (if ltb n (max_fd open_max) then none else t n)

abbrev pub reopened : (flags : ℕ) → (ℕ → Option Text) → ℕ → Option Text
reopened flags t n =
    if has_flag flags bd_no_reopen_std_fds then t n else (if ltb n 3 then some dev_null else t n)

-- the root directory, or the directory before where that may not be entered
abbrev pub AtRoot : (barred : Bool) (before : Text) → Text → Type 0
AtRoot true before d = (d ≡ codes "/") ⊎ (d ≡ before)
AtRoot false before d = d ≡ codes "/"

pub AtRoot-root : (barred : Bool) (before : Text) → AtRoot barred before (codes "/")
AtRoot-root true before = inl refl
AtRoot-root false before = refl

-- It goes to the root directory, unless it shall stay or may not go there.
abbrev pub Moved : (flags : ℕ) (barred : Bool) (before : Text) → Text → Type 0
Moved flags barred before d =
    if has_flag flags bd_no_chdir then d ≡ before else AtRoot barred before d

-- a daemon
pub record Daemon (flags : ℕ) (open_max : Option ℕ) (before now : View) : Type 0 where
  pub no_leader : now.leader ≡ false
  pub no_terminal : now.terminal ≡ false
  pub mask_cleared : now.mask ≡ masked flags before
  pub moved : Moved flags before.barred before.cwd now.cwd
  pub files : Agree now.table (reopened flags (closed flags open_max before.table))

abbrev pub standard : (ℕ → Option Text) → ℕ → Option Text
standard t =
    let t1 = set 0 (some dev_null) (set 0 none t) in let t2 = set 1 (t1 0) t1 in set 2 (t2 0) t2

pub standard_lem :
    (t : ℕ → Option Text) (n : ℕ) → standard t n ≡ (if ltb n 3 then some dev_null else t n)
standard_lem t n = ground arith

-- Only a parent ends, with success.
abbrev pub Leaves : {K : Type 0} → Exit → K → Type 0
Leaves e k = e ≡ success

-- what holds where 0 is returned
abbrev pub Succeeds : {K : Type 0} → (K → Type 0) → Option (Unit {0}) → K → Type 0
Succeeds P none k = Unit
Succeeds P (some u) k = P k
