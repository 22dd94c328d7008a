-- ===== src/Daemon/Detached.antt =====
-- lib/become_daemon.c: what a daemon has and has not.
use my_linux_programming_int.Prelude.{
  ℕ, zero, suc, ◌≡◌, refl, ap, ◌∙◌, true, false, ltb, Option, none, some, if◌then◌else◌, Text,
}
use my_linux_programming_int.Sys.{Proc, ok}
use my_linux_programming_int.Sys.Table.{Agree}
use my_linux_programming_int.GetNum.{has_flag}
use my_linux_programming_int.Program.{Prog, attempt}
use my_linux_programming_int.Program.After.{After, After-bind, After-attempt, After-map}
use my_linux_programming_int.Daemon.View.{
  Leaves, Succeeds, View, DaemonLaws, masked, closed, reopened, Moved, Daemon,
}
use my_linux_programming_int.Daemon.Steps.{
  At, changed, Succeeds-map, clear_umask-At, change_dir-At, close_files-At, Reopened, reopen-At,
}
use my_linux_programming_int.Daemon.{
  DaemonApi, bd_no_reopen_std_fds, dev_null, unless_failed, in_child, fork_off, clear_umask,
  change_dir, close_files, reopen, tidy, second_fork, new_session, become_daemon,
}

module _ {K : Type 0} (os : DaemonApi K) (laws : DaemonLaws os) where
  open laws use {
    view, fork_child, setsid_ok, umask_sets, chdir_ok, root_fail, close_drops, open_ok, dup_ok,
  }

  unless_failed-After :
      (P Q : K → Type 0) (rest : Prog K (Option (Unit {0}))) (r : Option (Unit {0})) (p : Proc K)
      → Succeeds P r p.kernel
      → (P p.kernel → After (Succeeds Q) Leaves (rest p))
      → After (Succeeds Q) Leaves (unless_failed os r rest p)
  unless_failed-After P Q rest none p h behind = tt
  unless_failed-After P Q rest (some u) p h behind = behind h

  abbrev ChildAt : View → Option ℕ → K → Type 0
  ChildAt v none k = Unit
  ChildAt v (some zero) k = At os laws v k
  ChildAt v (some (suc pid)) k = Unit

  in_child-At :
      (v : View) (r : Option ℕ) (p : Proc K)
      → ChildAt v r p.kernel
      → After (Succeeds (At os laws v)) Leaves (in_child os r p)
  in_child-At v none p h = tt
  in_child-At v (some zero) p h = h
  in_child-At v (some (suc pid)) p h = refl

  fork_reply :
      (v : View) (p : Proc K) (pid : ℕ)
      → At os laws v p.kernel
      → (os.fork p.kernel).0 ≡ ok pid
      → ChildAt (record v { leader = false }) (some pid) (os.fork p.kernel).1
  fork_reply v p zero at c =
      changed os laws (λ w. record w { leader = false }) v (os.fork p.kernel).1 p.kernel
        (fork_child p.kernel c) at
  fork_reply v p (suc pid) at c = tt

  fork_off-At :
      (v : View) (p : Proc K)
      → At os laws v p.kernel
      → After (Succeeds (At os laws (record v { leader = false }))) Leaves (fork_off os p)
  unfolding fork_off
  fork_off-At v p at =
      let v1 : View = record v { leader = false } in
      After-bind Leaves (ChildAt v1) (Succeeds (At os laws v1)) _ (attempt os.fork p)
        (After-attempt Leaves (ChildAt v1) os.fork p (λ pid c. fork_reply v p pid at c) (λ e c. tt))
        (λ r p1 h. in_child-At v1 r p1 h)

  module _ (flags : ℕ) (v : View) where
    -- a daemon of a process that had the view `v`
    abbrev Done : Option (Unit {0}) → K → Type 0
    Done = Succeeds (λ k. Daemon flags os.open_max v (view k))

    kept_files :
        (t : ℕ → Option Text) (n : ℕ)
        → t n ≡ closed flags os.open_max v.table n
        → reopened flags t n ≡ reopened flags (closed flags os.open_max v.table) n
    kept_files t n e =
        ap
          (λ x.
            if has_flag flags bd_no_reopen_std_fds
            then x
            else (if ltb n 3 then some dev_null else x))
          e

    finished :
        (w : View) (t : ℕ → Option Text) (k : K)
        → w.leader ≡ false
        → w.terminal ≡ false
        → w.mask ≡ masked flags v
        → Moved flags v.barred v.cwd w.cwd
        → Agree w.table (closed flags os.open_max v.table)
        → Agree t (reopened flags w.table)
        → At os laws (record w { table = t }) k
        → Daemon flags os.open_max v (view k)
    finished w t k leads has mask moved files final at = rw at (record {
      no_leader = leads;
      no_terminal = has;
      mask_cleared = mask;
      moved = moved;
      files = λ n. final n ∙ kept_files w.table n (files n);
    })

    tidy-Daemon :
        (p : Proc K)
        → At os laws (record v { leader = false; terminal = false }) p.kernel
        → After Done Leaves (tidy os flags p)
    unfolding tidy
    tidy-Daemon p at =
        let w : View = record v { leader = false; terminal = false } in
        let w1 : View = record w { mask = masked flags v } in
        After-bind Leaves (λ u k. At os laws w1 k) Done _ (clear_umask os flags p)
          (clear_umask-At os laws flags w p at)
          (λ u p1 at1.
            After-bind Leaves
              (λ u k.
                (d : Text) × Moved flags v.barred v.cwd d × At os laws (record w1 { cwd = d }) k)
              Done _ (change_dir os flags p1) (change_dir-At os laws flags w1 p1 at1)
              (λ u p2 h2.
                let w2 : View = record w1 { cwd = h2.0 } in
                After-bind Leaves
                  (λ u k.
                    (t : ℕ → Option Text) × Agree t (closed flags os.open_max v.table)
                    × At os laws (record w2 { table = t }) k)
                  Done _ (close_files os flags p2) (close_files-At os laws flags w2 p2 h2.2)
                  (λ u p3 h3.
                    let w3 : View = record w2 { table = h3.0 } in
                    After-map Leaves (Succeeds (Reopened os laws flags w3)) Done
                      (reopen os flags p3) (reopen-At os laws flags w3 p3 h3.2)
                      (λ r k h4.
                        Succeeds-map os laws (Reopened os laws flags w3)
                          (λ k1. Daemon flags os.open_max v (view k1)) r k h4
                          (λ h5. finished w3 h5.0 k refl refl refl h2.1 h3.1 h5.1 h5.2)))))

    second_fork-Daemon :
        (p : Proc K)
        → At os laws (record v { leader = true; terminal = false }) p.kernel
        → After Done Leaves (second_fork os flags p)
    unfolding second_fork
    second_fork-Daemon p at =
        let w : View = record v { leader = true; terminal = false } in
        let w1 : View = record w { leader = false } in
        After-bind Leaves (Succeeds (At os laws w1)) Done _ (fork_off os p) (fork_off-At w p at)
          (λ r p1 h.
            unless_failed-After (At os laws w1) (λ k1. Daemon flags os.open_max v (view k1))
              (tidy os flags) r p1 h (tidy-Daemon p1))

    new_session-Daemon :
        (p : Proc K)
        → At os laws (record v { leader = false }) p.kernel
        → After Done Leaves (new_session os flags p)
    unfolding new_session
    new_session-Daemon p at =
        let w : View = record v { leader = false } in
        let w1 : View = record v { leader = true; terminal = false } in
        After-bind Leaves (Succeeds (At os laws w1)) Done _ (attempt os.setsid p)
          (After-attempt Leaves (Succeeds (At os laws w1)) os.setsid p
            (λ u c.
              changed os laws (λ x. record x { leader = true; terminal = false }) w
                (os.setsid p.kernel).1 p.kernel (setsid_ok p.kernel u c) at)
            (λ e c. tt))
          (λ r p1 h.
            unless_failed-After (At os laws w1) (λ k1. Daemon flags os.open_max v (view k1))
              (second_fork os flags) r p1 h (second_fork-Daemon p1))

  -- becomeDaemon: a process that gets the result 0 leads no session, has no controlling terminal and a
  -- clear file mode creation mask, is in the root directory unless it may not go there, has all
  -- descriptors below the limit closed but 0, 1 and 2, and these three on /dev/null, each of the last
  -- four where `flags` does not say otherwise; all else is as before the call. The only end of a
  -- process is with success.
  pub become_daemon-Daemon :
      (flags : ℕ) (p : Proc K)
      → After
          (Succeeds (λ k. Daemon flags os.open_max (view p.kernel) (view k)))
          Leaves
          (become_daemon os flags p)
  unfolding become_daemon
  become_daemon-Daemon flags p =
      let v = view p.kernel in
      let w : View = record v { leader = false } in
      After-bind Leaves (Succeeds (At os laws w)) (Done flags v) _ (fork_off os p)
        (fork_off-At v p refl)
        (λ r p1 h.
          unless_failed-After (At os laws w) (λ k. Daemon flags os.open_max v (view k))
            (new_session os flags) r p1 h (new_session-Daemon flags v p1))
