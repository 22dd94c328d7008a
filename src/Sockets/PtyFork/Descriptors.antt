-- ===== src/Sockets/PtyFork/Descriptors.antt =====
-- lib/pty_fork.c: the descriptors of the parent and of the child.
use my_linux_programming_int.Prelude.{
  ℕ, zero, suc, ◌-◌, ◌==◌, false, [], ◌∷◌, ◌++◌, All, drop, replicate, ◌≡◌, refl, sym, ap, ◌∙◌, inl,
  inr, ◌<◌, Bool-cases, ltb, Option, none, some, Text, c_string, length, arith,
}
use mathlib.Core.Path.{subst}
use my_linux_programming_int.Sys.{sys-kernel, Proc}
use my_linux_programming_int.Clib.Strings.{strncpy}
use my_linux_programming_int.Program.{attempt}
use my_linux_programming_int.Program.After.{After, After-bind, After-attempt}
use my_linux_programming_int.Sockets.Pty.{pty_master_open}
use my_linux_programming_int.Sockets.Pty.Master.{PtyView, OpensAs, master-OpensAs}
use my_linux_programming_int.Sys.Table.{set, set-same, set-Agree, set-undo}
use my_linux_programming_int.Sockets.PtyFork.Table.{master, Table, ForkTable, on_slave}
use my_linux_programming_int.Sockets.PtyFork.Child.{Fails, Has, kept, changed, child_of-After}
use my_linux_programming_int.Sockets.PtyFork.{
  ForkApi, max_sname, Forked, Request, child_of, forked, fork_child, too_small, offer, with_master,
  pty_fork,
}

module _ {K Termios Winsize : Type 0} (os : ForkApi K Termios Winsize) (laws : ForkTable os) where
  open laws use {
    table, pts, pts_plain, ptsname_is, openpt_ok, openpt_fail, grantpt_kept, unlockpt_kept,
    ptsname_kept, close_drops, fork_kept, setsid_kept, open_ok, ctty_kept, tcsetattr_kept,
    size_kept, dup_ok,
  }

  -- The caller's buffer, where there is one, holds the name, which fits it with its terminator.
  abbrev pub StoresIn : Option Text → (sn_len : ℕ) (name : Text) → Option Text → Type 0
  StoresIn none sn_len name stored = stored ≡ none
  StoresIn (some buf) sn_len name stored =
      (length name < sn_len) × (stored ≡ some (strncpy buf name sn_len))

  abbrev pub Stores : Request Termios Winsize → (name : Text) → Option Text → Type 0
  Stores req name stored = StoresIn req.slave_name req.sn_len name stored

  -- By the result, the descriptors, of which `t` is the table before the call, and `name` that of the
  -- slave: on failure as before; in the child the slave on 0, 1 and 2, and the others as before; in
  -- the parent as before, with its master on a new one, which is stored.
  abbrev pub Side :
      Request Termios Winsize
      → (t : Table) (name : Text) → Option ℕ
      → (master_fd : ℕ) (stored : Option Text) → K
      → Type 0
  Side req t name none master_fd stored k = Has os laws t k
  Side req t name (some zero) master_fd stored k =
      Stores req name stored × Has os laws (on_slave name t) k
  Side req t name (some (suc pid)) master_fd stored k =
      Stores req name stored
      × (t master_fd ≡ none)
      × Has os laws (set master_fd (some (master name)) t) k

  abbrev pub Sides : Request Termios Winsize → (t : Table) (name : Text) → Forked → K → Type 0
  Sides req t name f k = Side req t name f.child f.master_fd f.slave_name k

  -- a master that is open on a new descriptor
  abbrev Master : Table → (name : Text) (mfd : ℕ) → K → Type 0
  Master t name mfd k = (t mfd ≡ none) × Has os laws (set mfd (some (master name)) t) k

  closed :
      (t : Table) (name : Text) (mfd : ℕ) (k : K)
      → Master t name mfd k
      → Has os laws t (os.pty.close mfd k).1
  closed t name mfd k (free, has) n =
      close_drops mfd k n
      ∙ (set-Agree mfd none (table k) (set mfd (some (master name)) t) has n
          ∙ set-undo mfd (some (master name)) none t free n)

  module _ (req : Request Termios Winsize) (t : Table) (name : Text) (mfd : ℕ) (slname : Text)
      (called : c_string slname ≡ name) where
    forked-After :
        (stored : Option Text) (child : Option ℕ) (p : Proc K)
        → Stores req name stored
        → Master t name mfd p.kernel
        → After (Sides req t name) Fails (forked os req stored mfd slname child p)
    unfolding forked
    forked-After stored none p stores mine = λ n.
        ap (λ k. table k n) (sys-kernel (os.pty.close mfd) p) ∙ closed t name mfd p.kernel mine n
    forked-After stored (some zero) p stores (free, has) =
        After-bind Fails (λ u k. Has os laws (on_slave (c_string slname) t) k) (Sides req t name) _
          (child_of os req mfd slname p)
          (child_of-After os laws req mfd (master name) slname t p free has)
          (λ u p1 h1. (stores, subst (λ s. Has os laws (on_slave s t) p1.kernel) called h1))
    forked-After stored (some (suc pid)) p stores (free, has) = (stores, free, has)

    fork_child-After :
        (stored : Option Text) (p : Proc K)
        → Stores req name stored
        → Master t name mfd p.kernel
        → After (Sides req t name) Fails (fork_child os req stored mfd slname p)
    unfolding fork_child
    fork_child-After stored p stores (free, has) =
        let has1 =
          kept os laws (set mfd (some (master name)) t) (os.fork p.kernel).1 p.kernel
            (fork_kept p.kernel) has in
        After-bind Fails (λ child k. Master t name mfd k) (Sides req t name) _ (attempt os.fork p)
          (After-attempt Fails (λ child k. Master t name mfd k) os.fork p (λ child c. (free, has1))
            (λ x c. (free, has1)))
          (λ child p1 mine. forked-After stored child p1 stores mine)

  too_small-After :
      (req : Request Termios Winsize) (t : Table) (name : Text) (mfd : ℕ) (p : Proc K)
      → Master t name mfd p.kernel
      → After (Sides req t name) Fails (too_small os req mfd p)
  unfolding too_small
  too_small-After req t name mfd p mine n =
      ap (λ k. table k n) (sys-kernel (os.pty.close mfd) p) ∙ closed t name mfd p.kernel mine n

  offer-After :
      (req : Request Termios Winsize) (t : Table) (name : Text) (mfd : ℕ) (slname : Text)
      (buffer : Option Text) (p : Proc K)
      → c_string slname ≡ name
      → req.slave_name ≡ buffer
      → Master t name mfd p.kernel
      → After (Sides req t name) Fails (offer os req mfd slname buffer p)
  unfolding offer
  offer-After req t name mfd slname none p called e mine =
      fork_child-After req t name mfd slname called none p (rw e refl) mine
  offer-After req t name mfd slname (some buf) p called e mine =
      elim (Bool-cases (ltb (length (c_string slname)) req.sn_len)) [
        | inl fits ↦ rw fits (
            fork_child-After req t name mfd slname called
              (some (strncpy buf (c_string slname) req.sn_len)) p
              (subst (λ s. Stores req s (some (strncpy buf (c_string slname) req.sn_len))) called
                (rw e (ground (arith, fits), refl)))
              mine)
        | inr long ↦ rw long (too_small-After req t name mfd p mine)
      ]

  -- the string in a buffer that starts with a name and its terminator
  c_string-padded :
      (name rest : Text) (m : ℕ)
      → All (λ c. (c == 0) ≡ false) name
      → 0 < m
      → c_string ((name ++ replicate m 0) ++ rest) ≡ name
  c_string-padded [] rest zero plain h = absurd (omega arith)
  c_string-padded [] rest (suc m) plain h = refl
  c_string-padded (c ∷ name) rest m (other, plain) h =
      rw (other, c_string-padded name rest m plain h) refl

  with_master-After :
      (req : Request Termios Winsize) (t : Table) (name : Text) (r : (Option ℕ × Text) × Proc K)
      (before : Text)
      → All (λ c. (c == 0) ≡ false) name
      → OpensAs (λ s. s ≡ name) (Has os laws t) (Master t name) before max_sname r
      → After (Sides req t name) Fails (with_master os req r.0 r.1)
  unfolding with_master
  with_master-After req t name ((none, slname), p) before plain opens = opens.0
  with_master-After req t name ((some mfd, slname), p) before plain (mine, s, same, fits, buf) =
      offer-After req t name mfd slname req.slave_name p
        (ap c_string buf
          ∙ c_string-padded s (drop max_sname before) (max_sname - length s)
              (subst (All (λ c. (c == 0) ≡ false)) (sym same) plain) (omega (arith, fits))
          ∙ same)
        refl mine

  -- the view of the descriptors for `ptyMasterOpen`
  abbrev pty_view : (t : Table) (name : Text) → PtyView os.pty
  pty_view t name = record {
    Begins = λ k. Has os laws t k × (pts k ≡ name);
    Shut = Has os laws t;
    Holds = Master t name;
    IsName = λ s. s ≡ name;
    named = λ fd k s (free, has) c.
        ptsname_is fd k name s (has fd ∙ set-same fd (some (master name)) t) c;
    openpt_ok = λ k fd (shut, next) c.
        let (free, now) = openpt_ok k fd c in
        (
          sym (shut fd) ∙ free,
          changed os laws fd (some (master (pts k))) (some (master name)) t
              (os.pty.posix_openpt k).1 k now (ap (λ s. some (master s)) next) shut,
        );
    openpt_fail =
        λ k e (shut, next) c. kept os laws t (os.pty.posix_openpt k).1 k (openpt_fail k e c) shut;
    grantpt_kept = λ fd k (free, has). (
      free,
      kept os laws (set fd (some (master name)) t) (os.pty.grantpt fd k).1 k (grantpt_kept fd k)
          has,
    );
    unlockpt_kept = λ fd k (free, has). (
      free,
      kept os laws (set fd (some (master name)) t) (os.pty.unlockpt fd k).1 k (unlockpt_kept fd k)
          has,
    );
    ptsname_kept = λ fd k (free, has). (
      free,
      kept os laws (set fd (some (master name)) t) (os.pty.ptsname fd k).1 k (ptsname_kept fd k)
          has,
    );
    close_drops = λ fd k mine. closed t name fd k mine;
  }

  -- ptyFork, from a table `t` of descriptors: where it returns -1 the table is `t` again; where it
  -- returns 0, in the child, the slave is on 0, 1 and 2 and all else is as in `t`; where it returns a
  -- process ID, the stored descriptor was free and is the master of that slave, and all else is as in
  -- `t`. In the last two cases the caller's buffer, if there is one, holds the name of that slave, which
  -- fits it. The only end of the process is by err_exit().
  pub pty_fork-Sides :
      (slname : Text) (req : Request Termios Winsize) (p : Proc K)
      → After (Sides req (table p.kernel) (pts p.kernel)) Fails (pty_fork os slname req p)
  unfolding pty_fork
  pty_fork-Sides slname req p =
      let t = table p.kernel in
      let name = pts p.kernel in
      with_master-After req t name (pty_master_open os.pty slname max_sname p) slname
        (pts_plain p.kernel)
        (master-OpensAs os.pty (pty_view t name) slname max_sname p ((λ n. refl), refl))
