-- ===== src/PidFile/Exclusive.antt =====
-- lib/create_pid_file.c: the lock, and the content of the file.
use my_linux_programming_int.Prelude.{
  ℕ, ◌≡◌, ◌∙◌, ◌⊎◌, inl, inr, ◌==◌, ◌||◌, Bool-cases, Option, none, some, [], length, take,
  take-fits, pos, Text, arith,
}
use my_linux_programming_int.Sys.{ok, Proc, Reply-cases, eagain, eacces}
use my_linux_programming_int.GetNum.{has_flag}
use my_linux_programming_int.Program.{Result, value, ended, out_of_fuel, bind_result}
use my_linux_programming_int.PidFile.Regions.{
  Flock, f_setlk, f_wrlck, seek_set, lock_reg, lock_region,
}
use my_linux_programming_int.PidFile.{
  PidApi, cpf_cloexec, pid_line, with_cloexec, set_cloexec, not_locked, write_pid_as, write_pid,
  after_lock, lock_and_write, create_pid_file,
}

-- a write lock on the whole file
abbrev pub whole : ℕ → Flock
whole stale = record {
  l_type = f_wrlck;
  l_whence = seek_set;
  l_start = pos 0;
  l_len = pos 0;
  l_pid = stale;
}

-- What the function relies on. `content` is the content of the file; `Owns fd` says that the process
-- has it locked as a whole.
pub record PidLaws {K : Type 0} (os : PidApi K) : Type 1 where
  pub content : K → Text
  pub Owns : K → Type 0
  pub pid : ℕ
  pub same_pid : (k : K) → os.getpid k ≡ pid
  pub open_kept : (path : Text) (k : K) → content (os.open_pid path k).1 ≡ content k
  pub getfd_kept : (fd : ℕ) (k : K) → content (os.getfd fd k).1 ≡ content k
  pub setfd_kept : (fd flags : ℕ) (k : K) → content (os.setfd fd flags k).1 ≡ content k
  pub lock_kept :
      (fd : ℕ) (fl : Flock) (k : K) → content (os.locks.fcntl fd f_setlk fl k).1 ≡ content k
  pub locked :
      (fd : ℕ) (k : K) (fl : Flock)
      → (os.locks.fcntl fd f_setlk (whole os.locks.stale) k).0 ≡ ok fl
      → Owns (os.locks.fcntl fd f_setlk (whole os.locks.stale) k).1
  pub truncated :
      (fd : ℕ) (k : K) → (os.ftruncate fd 0 k).0 ≡ ok tt → content (os.ftruncate fd 0 k).1 ≡ []
  pub truncate_owns : (fd : ℕ) (k : K) → Owns k → Owns (os.ftruncate fd 0 k).1
  pub written :
      (fd m : ℕ) (bs : Text) (k : K)
      → content k ≡ []
      → (os.write fd bs k).0 ≡ ok m
      → content (os.write fd bs k).1 ≡ take m bs
  pub write_owns : (fd : ℕ) (bs : Text) (k : K) → Owns k → Owns (os.write fd bs k).1

module _ {K : Type 0} (os : PidApi K) (laws : PidLaws os) where
  open laws use {
    content, Owns, pid, same_pid, open_kept, getfd_kept, setfd_kept, lock_kept, locked, truncated,
    truncate_owns, written, write_owns,
  }

  -- On success the process has the lock, and the file holds its process ID, as the print of a number
  -- with a newline; where the function ends the process without the lock, the file is as before.
  abbrev pub Creates : (before : Text) → Result ℕ × Proc K → Type 0
  Creates before (value fd, p) = Owns p.kernel × (content p.kernel ≡ pid_line pid)
  Creates before (ended e, p) = Owns p.kernel ⊎ (content p.kernel ≡ before)
  Creates before (out_of_fuel, p) = ⊥

  write_pid_as-Creates :
      (before pid_file : Text) (fd : ℕ) (p : Proc K)
      → Owns p.kernel
      → Creates before (write_pid_as os pid_file fd (pid_line pid) p)
  unfolding write_pid_as
  write_pid_as-Creates before pid_file fd p mine =
      let k1 = (os.ftruncate fd 0 p.kernel).1 in
      let buf = pid_line pid in
      let k2 = (os.write fd buf k1).1 in
      let mine1 = truncate_owns fd p.kernel mine in
      let mine2 = write_owns fd buf k1 mine1 in
      elim (Reply-cases (os.ftruncate fd 0 p.kernel).0) [
        | inr (e, c) ↦ rw c (inl mine1)
        | inl (u, c) ↦ elim (Reply-cases (os.write fd buf k1).0) [
          | inr (e, d) ↦ rw (c, d) (inl mine2)
          | inl (m, d) ↦
              let got = written fd m buf k1 (truncated fd p.kernel c) d in
              elim (Bool-cases (m == length buf)) [
                | inl all ↦ rw (c, d, all) (mine2, got ∙ take-fits m buf (ground (arith, all)))
                | inr part ↦ rw (c, d, part) (inl mine2)
              ]
        ]
      ]

  write_pid-Creates :
      (before pid_file : Text) (fd : ℕ) (p : Proc K)
      → Owns p.kernel
      → Creates before (write_pid os pid_file fd p)
  unfolding write_pid
  write_pid-Creates before pid_file fd p mine =
      rw (same_pid p.kernel) (write_pid_as-Creates before pid_file fd p mine)

  -- what a request for the lock leaves
  abbrev Asked : (before : Text) → Option (Unit {0}) × Proc K → Type 0
  Asked before (none, p) = content p.kernel ≡ before
  Asked before (some u, p) = Owns p.kernel

  lock_region-Asked :
      (before : Text) (fd : ℕ) (p : Proc K)
      → content p.kernel ≡ before
      → Asked before (lock_region os.locks fd f_wrlck seek_set (pos 0) (pos 0) p)
  unfolding lock_region lock_reg
  lock_region-Asked before fd p same =
      let fl = whole os.locks.stale in
      elim (Reply-cases (os.locks.fcntl fd f_setlk fl p.kernel).0) [
        | inr (e, c) ↦ rw (c, Asked) (lock_kept fd fl p.kernel ∙ same)
        | inl (after, c) ↦ rw (c, Asked) (locked fd p.kernel after c)
      ]

  after_lock-Creates :
      (before prog_name pid_file : Text) (fd : ℕ) (r : Option (Unit {0}) × Proc K)
      → Asked before r
      → Creates before (after_lock os prog_name pid_file fd r.0 r.1)
  unfolding after_lock not_locked
  after_lock-Creates before prog_name pid_file fd (none, p) same =
      elim (Bool-cases (p.errno == eagain || p.errno == eacces)) [
        | inl busy ↦ rw busy (inr same)
        | inr other ↦ rw other (inr same)
      ]
  after_lock-Creates before prog_name pid_file fd (some u, p) mine =
      write_pid-Creates before pid_file fd p mine

  lock_and_write-Creates :
      (before prog_name pid_file : Text) (fd : ℕ) (p : Proc K)
      → content p.kernel ≡ before
      → Creates before (lock_and_write os prog_name pid_file fd p)
  unfolding lock_and_write
  lock_and_write-Creates before prog_name pid_file fd p same =
      after_lock-Creates before prog_name pid_file fd
        (lock_region os.locks fd f_wrlck seek_set (pos 0) (pos 0) p)
        (lock_region-Asked before fd p same)

  -- a step that leaves the file alone
  abbrev Keeps : (before : Text) → Result (Unit {0}) × Proc K → Type 0
  Keeps before (value u, p) = content p.kernel ≡ before
  Keeps before (ended e, p) = content p.kernel ≡ before
  Keeps before (out_of_fuel, p) = ⊥

  set_cloexec-Keeps :
      (before pid_file : Text) (fd : ℕ) (p : Proc K)
      → content p.kernel ≡ before
      → Keeps before (set_cloexec os pid_file fd p)
  unfolding set_cloexec
  set_cloexec-Keeps before pid_file fd p same =
      let k1 = (os.getfd fd p.kernel).1 in
      let kept1 = getfd_kept fd p.kernel ∙ same in
      elim (Reply-cases (os.getfd fd p.kernel).0) [
        | inr (e, c) ↦ rw c kept1
        | inl (flags, c) ↦
            let kept2 = setfd_kept fd (with_cloexec flags) k1 ∙ kept1 in
            elim (Reply-cases (os.setfd fd (with_cloexec flags) k1).0) [
              | inr (e, d) ↦ rw (c, d) kept2
              | inl (u, d) ↦ rw (c, d) kept2
            ]
      ]

  then-Creates :
      (before prog_name pid_file : Text) (fd : ℕ) (r : Result (Unit {0}) × Proc K)
      → Keeps before r
      → Creates before (bind_result (λ _. lock_and_write os prog_name pid_file fd) r)
  then-Creates before prog_name pid_file fd (value u, p) same =
      lock_and_write-Creates before prog_name pid_file fd p same
  then-Creates before prog_name pid_file fd (ended e, p) same = inr same
  then-Creates before prog_name pid_file fd (out_of_fuel, p) never = elim never [ ]

  -- create_pid_file changes its file only with the lock: on success the process has the whole file
  -- locked, and the file holds its process ID in decimal with a newline, cut to the buffer; where the
  -- function ends the process, the process has the lock or the file is as it was.
  pub create_pid_file-Creates :
      (prog_name pid_file : Text) (flags : ℕ) (p : Proc K)
      → Creates (content p.kernel) (create_pid_file os prog_name pid_file flags p)
  unfolding create_pid_file
  create_pid_file-Creates prog_name pid_file flags p =
      let k1 = (os.open_pid pid_file p.kernel).1 in
      let kept = open_kept pid_file p.kernel in
      elim (Reply-cases (os.open_pid pid_file p.kernel).0) [
        | inr (e, c) ↦ rw c (inr kept)
        | inl (fd, c) ↦
            let opened = record p { kernel = k1 } in
            elim (Bool-cases (has_flag flags cpf_cloexec)) [
              | inl cloexec ↦
                  rw (c, cloexec)
                    (then-Creates (content p.kernel) prog_name pid_file fd
                      (set_cloexec os pid_file fd opened)
                      (set_cloexec-Keeps (content p.kernel) pid_file fd opened kept))
              | inr plain ↦
                  rw (c, plain)
                    (then-Creates (content p.kernel) prog_name pid_file fd (value tt, opened) kept)
            ]
      ]
