-- ===== src/Sockets/PtyFork/Table.antt =====
-- lib/pty_fork.c: descriptors, as what they refer to.
use my_linux_programming_int.Prelude.{
  ℕ, true, false, ◌≡◌, ltb, ◌==◌, All, Option, none, some, if◌then◌else◌, Text, arith,
}
use my_linux_programming_int.Sys.Table.{set, Agree}
use my_linux_programming_int.Sys.{ok, fail}
use my_linux_programming_int.Sockets.PtyFork.{ForkApi}

-- what a descriptor refers to: the master of the pseudoterminal with the slave `name`, a slave, or another file
pub data File : Type 0 where
  master : (name : Text) → File
  slave : (name : Text) → File
  other : (id : ℕ) → File

abbrev pub Table : Type 0
Table = ℕ → Option File

-- The descriptors of the process that runs, and what the calls do to them.
pub record ForkTable {K Termios Winsize : Type 0} (os : ForkApi K Termios Winsize) : Type 0 where
  pub table : K → Table
  -- the name of the slave of the next pseudoterminal, without a NUL
  pub pts : K → Text
  pub pts_plain : (k : K) → All (λ c. (c == 0) ≡ false) (pts k)
  pub openpt_ok :
      (k : K) (fd : ℕ)
      → (os.pty.posix_openpt k).0 ≡ ok fd
      → (table k fd ≡ none)
        × Agree (table (os.pty.posix_openpt k).1) (set fd (some (master (pts k))) (table k))
  pub openpt_fail :
      (k : K) (e : ℕ)
      → (os.pty.posix_openpt k).0 ≡ fail e
      → Agree (table (os.pty.posix_openpt k).1) (table k)
  pub grantpt_kept : (fd : ℕ) (k : K) → Agree (table (os.pty.grantpt fd k).1) (table k)
  pub unlockpt_kept : (fd : ℕ) (k : K) → Agree (table (os.pty.unlockpt fd k).1) (table k)
  pub ptsname_kept : (fd : ℕ) (k : K) → Agree (table (os.pty.ptsname fd k).1) (table k)
  pub ptsname_is :
      (fd : ℕ) (k : K) (slave_of name : Text)
      → table k fd ≡ some (master slave_of)
      → (os.pty.ptsname fd k).0 ≡ ok name
      → name ≡ slave_of
  pub close_drops : (fd : ℕ) (k : K) → Agree (table (os.pty.close fd k).1) (set fd none (table k))
  pub fork_kept : (k : K) → Agree (table (os.fork k).1) (table k)
  pub setsid_kept : (k : K) → Agree (table (os.setsid k).1) (table k)
  pub open_ok :
      (name : Text) (k : K) (fd : ℕ)
      → (os.open_slave name k).0 ≡ ok fd
      → (table k fd ≡ none)
        × Agree (table (os.open_slave name k).1) (set fd (some (slave name)) (table k))
  pub ctty_kept : (fd : ℕ) (k : K) → Agree (table (os.set_ctty fd k).1) (table k)
  pub tcsetattr_kept :
      (fd : ℕ) (t : Termios) (k : K) → Agree (table (os.tcsetattr fd t k).1) (table k)
  pub size_kept : (fd : ℕ) (w : Winsize) (k : K) → Agree (table (os.set_size fd w k).1) (table k)
  pub dup_ok :
      (old new got : ℕ) (k : K)
      → (os.dup2 old new k).0 ≡ ok got
      → Agree (table (os.dup2 old new k).1) (set new (table k old) (table k))

-- standard input, output and error, and the rest of a table
abbrev pub on_slave : (name : Text) → Table → Table
on_slave name t n = if ltb n 3 then some (slave name) else t n

-- Duplicates of the descriptor `s` on 0, 1 and 2.
abbrev pub streams : (s : ℕ) → Table → Table
streams s t = let t1 = set 0 (t s) t in let t2 = set 1 (t1 s) t1 in set 2 (t2 s) t2

pub streams-low :
    (s : ℕ) (name : Text) (t : Table)
    → ltb 2 s ≡ false
    → t s ≡ none
    → Agree (streams s (set s (some (slave name)) t)) (on_slave name t)
streams-low s name t low free n = ground arith

pub streams-high :
    (s : ℕ) (name : Text) (t : Table)
    → ltb 2 s ≡ true
    → t s ≡ none
    → Agree (set s none (streams s (set s (some (slave name)) t))) (on_slave name t)
streams-high s name t high free n = ground arith
