-- ===== src/Sockets/PtyFork/Child.antt =====
-- lib/pty_fork.c: the descriptors of the child.
use my_linux_programming_int.Prelude.{
  ℕ, ◌≡◌, refl, sym, ◌∙◌, inl, inr, Bool-cases, ltb, Option, none, some, ◌==◌, Text, c_string,
  codes,
}
use my_linux_programming_int.Sys.{sys, Call, Proc}
use my_linux_programming_int.Program.{
  pure, Exit, err_exit_now, need, attempt, Prog, or_exit, bind_result,
}
use my_linux_programming_int.Program.After.{After, After-bind, After-need, After-attempt}
use my_linux_programming_int.Sys.Table.{set, Agree, set-Agree, set-undo}
use my_linux_programming_int.Sockets.PtyFork.Table.{
  File, slave, Table, ForkTable, on_slave, streams, streams-low, streams-high,
}
use my_linux_programming_int.Sockets.PtyFork.{
  ForkApi, Request, dup_to, when_given, standard_streams, child_of,
}

-- the end of the child that err_exit() makes
abbrev pub Fails : {K : Type 0} → Exit → K → Type 0
Fails e k = (label : Text) × (e ≡ err_exit_now label)

module _ {K Termios Winsize : Type 0} (os : ForkApi K Termios Winsize) (laws : ForkTable os) where
  open laws use {
    table, openpt_ok, openpt_fail, grantpt_kept, unlockpt_kept, ptsname_kept, close_drops,
    fork_kept, setsid_kept, open_ok, ctty_kept, tcsetattr_kept, size_kept, dup_ok,
  }

  -- the table of a kernel
  abbrev pub Has : Table → K → Type 0
  Has t k = Agree (table k) t

  pub kept : (t : Table) (k1 k : K) → Agree (table k1) (table k) → Has t k → Has t k1
  kept t k1 k h has n = h n ∙ has n

  pub changed :
      (fd : ℕ) (v w : Option File) (t : Table) (k1 k : K)
      → Agree (table k1) (set fd v (table k))
      → v ≡ w
      → Has t k
      → Has (set fd w t) k1
  changed fd v w t k1 k h e has n = h n ∙ (rw e (set-Agree fd w (table k) t has n))

  dup_to-After :
      (s new : ℕ) (label : Text) (t : Table) (p : Proc K)
      → Has t p.kernel
      → After (λ _ k. Has (set new (t s) t) k) Fails (dup_to os s new label p)
  unfolding dup_to
  dup_to-After s new label t p has =
      After-bind Fails (λ got k. Has (set new (t s) t) k) (λ _ k. Has (set new (t s) t) k) _
        (or_exit (err_exit_now label) (sys (os.dup2 s new) p))
        (After-need Fails (λ got k. Has (set new (t s) t) k) (os.dup2 s new) (err_exit_now label) p
          (λ got c.
            changed new (table p.kernel s) (t s) t (os.dup2 s new p.kernel).1 p.kernel
              (dup_ok s new got p.kernel c) (has s) has)
          (λ x c. (label, refl)))
        (λ got p1 has1. elim (Bool-cases (got == new)) [
          | inl same ↦ rw same has1
          | inr different ↦ rw different (label, refl)
        ])

  -- a call that leaves the descriptors alone, and the code behind it
  need-kept :
      {A B : Type 0} (Returns : B → K → Type 0) (f : Call K A) (label : Text) (t : Table)
      (rest : A → Prog K B) (p : Proc K)
      → Has t p.kernel
      → ((k : K) → Agree (table (f k).1) (table k))
      → ((a : A) (p1 : Proc K) → Has t p1.kernel → After Returns Fails (rest a p1))
      → After Returns Fails (bind_result rest (need f (err_exit_now label) p))
  need-kept Returns f label t rest p has f_kept behind =
      After-bind Fails (λ a k. Has t k) Returns rest (need f (err_exit_now label) p)
        (After-need Fails (λ a k. Has t k) f (err_exit_now label) p
          (λ a c. kept t (f p.kernel).1 p.kernel (f_kept p.kernel) has) (λ x c. (label, refl)))
        behind

  close-then :
      {B : Type 0} (Returns : B → K → Type 0) (fd : ℕ) (t : Table)
      (rest : Option (Unit {0}) → Prog K B) (p : Proc K)
      → Has t p.kernel
      → ((r : Option (Unit {0})) (p1 : Proc K)
          → Has (set fd none t) p1.kernel
          → After Returns Fails (rest r p1))
      → After Returns Fails (bind_result rest (attempt (os.pty.close fd) p))
  close-then Returns fd t rest p has behind =
      let now =
        changed fd none none t (os.pty.close fd p.kernel).1 p.kernel (close_drops fd p.kernel) refl
          has in
      After-bind Fails (λ r k. Has (set fd none t) k) Returns rest (attempt (os.pty.close fd) p)
        (After-attempt Fails (λ r k. Has (set fd none t) k) (os.pty.close fd) p (λ a c. now)
          (λ x c. now))
        behind

  dup-then :
      (Returns : Unit {0} → K → Type 0) (s new : ℕ) (label : Text) (t : Table)
      (rest : Prog K (Unit {0})) (p : Proc K)
      → Has t p.kernel
      → ((p1 : Proc K) → Has (set new (t s) t) p1.kernel → After Returns Fails (rest p1))
      → After Returns Fails (bind_result (λ _. rest) (dup_to os s new label p))
  dup-then Returns s new label t rest p has behind =
      After-bind Fails (λ r k. Has (set new (t s) t) k) Returns (λ _. rest)
        (dup_to os s new label p) (dup_to-After s new label t p has) (λ u. behind)

  standard_streams-After :
      (s : ℕ) (name : Text) (t : Table) (p : Proc K)
      → t s ≡ none
      → Has (set s (some (slave name)) t) p.kernel
      → After (λ u k. Has (on_slave name t) k) Fails (standard_streams os s p)
  unfolding standard_streams
  standard_streams-After s name t p free has =
      let t0 = set s (some (slave name)) t in
      let t1 = set 0 (t0 s) t0 in
      let t2 = set 1 (t1 s) t1 in
      let Goal = λ (u : Unit {0}) (k : K). Has (on_slave name t) k in
      dup-then Goal s 0 (codes "ptyFork:dup2-STDIN_FILENO") t0 _ p has (λ p1 h1.
        dup-then Goal s 1 (codes "ptyFork:dup2-STDOUT_FILENO") t1 _ p1 h1 (λ p2 h2.
          dup-then Goal s 2 (codes "ptyFork:dup2-STDERR_FILENO") t2 _ p2 h2 (λ p3 h3.
            elim (Bool-cases (ltb 2 s)) [
              | inl high ↦ rw high (
                  close-then Goal s (streams s t0) (λ r. pure tt) p3 h3
                    (λ r p4 h4 n. h4 n ∙ streams-high s name t high free n))
              | inr low ↦ rw low (λ n. h3 n ∙ streams-low s name t low free n)
            ])))

  when_given-kept :
      {A : Type 0} (Returns : Unit {0} → K → Type 0) (v : Option A) (f : A → Call K (Unit {0}))
      (label : Text) (t : Table) (rest : Prog K (Unit {0})) (p : Proc K)
      → Has t p.kernel
      → ((a : A) (k : K) → Agree (table (f a k).1) (table k))
      → ((p1 : Proc K) → Has t p1.kernel → After Returns Fails (rest p1))
      → After Returns Fails
          (bind_result (λ _. rest) (when_given os v (λ a. need (f a) (err_exit_now label)) p))
  when_given-kept Returns none f label t rest p has f_kept behind = behind p has
  when_given-kept Returns (some a) f label t rest p has f_kept behind =
      need-kept Returns (f a) label t (λ _. rest) p has (f_kept a) (λ u. behind)

  open_slave-After :
      (name : Text) (t : Table) (p : Proc K)
      → Has t p.kernel
      → After
          (λ s k. (t s ≡ none) × Has (set s (some (slave name)) t) k)
          Fails
          (need (os.open_slave name) (err_exit_now (codes "ptyFork:open-slave")) p)
  open_slave-After name t p has =
      After-need Fails (λ s k. (t s ≡ none) × Has (set s (some (slave name)) t) k)
        (os.open_slave name) (err_exit_now (codes "ptyFork:open-slave")) p
        (λ s c.
          let (free, now) = open_ok name p.kernel s c in
          (
            sym (has s) ∙ free,
            changed s (some (slave name)) (some (slave name)) t (os.open_slave name p.kernel).1
                p.kernel now refl has,
          ))
        (λ x c. (codes "ptyFork:open-slave", refl))

  -- What the child has in the end, from the table `t` that it had before the pseudoterminal: the slave.
  pub child_of-After :
      (req : Request Termios Winsize) (mfd : ℕ) (f : File) (slname : Text) (t : Table) (p : Proc K)
      → t mfd ≡ none
      → Has (set mfd (some f) t) p.kernel
      → After (λ u k. Has (on_slave (c_string slname) t) k) Fails (child_of os req mfd slname p)
  unfolding child_of
  child_of-After req mfd f slname t p free has =
      let name = c_string slname in
      let Goal = λ (u : Unit {0}) (k : K). Has (on_slave name t) k in
      need-kept Goal os.setsid (codes "ptyFork:setsid") (set mfd (some f) t) _ p has setsid_kept
        (λ u p1 h1. close-then Goal mfd (set mfd (some f) t) _ p1 h1 (λ r p2 h2.
          let h2' : Has t p2.kernel = λ n. h2 n ∙ set-undo mfd (some f) none t free n in
          After-bind Fails (λ s k. (t s ≡ none) × Has (set s (some (slave name)) t) k) Goal _
            (need (os.open_slave name) (err_exit_now (codes "ptyFork:open-slave")) p2)
            (open_slave-After name t p2 h2')
            (λ s p3 opened.
              need-kept Goal (os.set_ctty s) (codes "ptyFork:ioctl-TIOCSCTTY")
                (set s (some (slave name)) t) _ p3 opened.1 (ctty_kept s)
                (λ v p4 h4.
                  when_given-kept Goal req.slave_termios (os.tcsetattr s)
                    (codes "ptyFork:tcsetattr") (set s (some (slave name)) t) _ p4 h4
                    (tcsetattr_kept s)
                    (λ p5 h5.
                      when_given-kept Goal req.slave_ws (os.set_size s)
                        (codes "ptyFork:ioctl-TIOCSWINSZ") (set s (some (slave name)) t) _ p5 h5
                        (size_kept s) (λ p6 h6. standard_streams-After s name t p6 opened.0 h6))))))
