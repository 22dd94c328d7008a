-- ===== src/Daemon/Steps.antt =====
-- lib/become_daemon.c: what each step of the way does.
use my_linux_programming_int.Prelude.{
  ℕ, zero, suc, ◌≡◌, refl, sym, ap, ◌∙◌, inl, inr, Bool-cases, ltb, Option, none, some, ◌==◌,
  if◌then◌else◌, Text, codes, arith,
}
use my_linux_programming_int.Sys.{Proc}
use my_linux_programming_int.Sys.Table.{set, Agree}
use my_linux_programming_int.GetNum.{has_flag}
use my_linux_programming_int.Program.{Prog, bind_result, attempt, pure}
use my_linux_programming_int.Program.After.{After, After-bind, After-attempt, After-map}
use mathlib.Core.Path.{subst}
use my_linux_programming_int.Daemon.View.{
  AtRoot, AtRoot-root, View, Leaves, Succeeds, DaemonLaws, cleared, cleared_lem, masked, closed,
  reopened, Moved, standard, standard_lem,
}
use my_linux_programming_int.Daemon.{
  DaemonApi, bd_no_chdir, bd_no_close_files, bd_no_reopen_std_fds, bd_no_umask0, max_fd, dev_null,
  is_fd, clear_umask, change_dir, close_from, close_files, dup_null, reopen_null, reopen,
}

module _ {K : Type 0} (os : DaemonApi K) (laws : DaemonLaws os) where
  open laws use {
    view, fork_child, setsid_ok, umask_sets, chdir_ok, root_fail, close_drops, open_ok, dup_ok,
  }

  abbrev pub At : View → K → Type 0
  At v k = view k ≡ v

  -- a call, by what it does to the view
  pub changed :
      (f : View → View) (v : View) (k1 k : K) → view k1 ≡ f (view k) → At v k → At (f v) k1
  changed f v k1 k h at = h ∙ ap f at

  pub Succeeds-map :
      (P Q : K → Type 0) (r : Option (Unit {0})) (k : K)
      → Succeeds P r k
      → (P k → Q k)
      → Succeeds Q r k
  Succeeds-map P Q none k h weaken = tt
  Succeeds-map P Q (some u) k h weaken = weaken h

  pub clear_umask-At :
      (flags : ℕ) (v : View) (p : Proc K)
      → At v p.kernel
      → After (λ u k. At (record v { mask = masked flags v }) k) Leaves (clear_umask os flags p)
  unfolding clear_umask
  clear_umask-At flags v p at = elim (Bool-cases (has_flag flags bd_no_umask0)) [
    | inl keep ↦ rw keep at
    | inr clear ↦ rw clear (
        changed (λ w. record w { mask = 0 }) v (os.umask 0 p.kernel) p.kernel
          (umask_sets 0 p.kernel) at)
  ]

  root_or_before :
      (v : View) (p : Proc K)
      → At v p.kernel
      → After
          (λ u k. (d : Text) × AtRoot v.barred v.cwd d × At (record v { cwd = d }) k)
          Leaves
          (bind_result (λ r. pure tt) (attempt (os.chdir (codes "/")) p))
  root_or_before v p at =
      let root = codes "/" in
      let P = λ (r : Option (Unit {0})) (k : K).
        (d : Text) × AtRoot v.barred v.cwd d × At (record v { cwd = d }) k in
      let k1 = (os.chdir root p.kernel).1 in
      After-bind Leaves P (λ u k. P none k) (λ r. pure tt) (attempt (os.chdir root) p)
        (After-attempt Leaves P (os.chdir root) p
          (λ u c. (
            root,
            AtRoot-root v.barred v.cwd,
            changed (λ w. record w { cwd = root }) v k1 p.kernel (chdir_ok root p.kernel u c) at,
          ))
          (λ e c.
            let (barred, kept) = root_fail p.kernel e c in
            (
              v.cwd,
              subst (λ b. AtRoot b v.cwd v.cwd)
                  (sym (ap (λ (w : View). w.barred) (sym at) ∙ barred)) (inr refl),
              kept ∙ at,
            )))
        (λ r p1 h. h)

  pub change_dir-At :
      (flags : ℕ) (v : View) (p : Proc K)
      → At v p.kernel
      → After
          (λ u k. (d : Text) × Moved flags v.barred v.cwd d × At (record v { cwd = d }) k)
          Leaves
          (change_dir os flags p)
  unfolding change_dir
  change_dir-At flags v p at = elim (Bool-cases (has_flag flags bd_no_chdir)) [
    | inl keep ↦ rw keep (v.cwd, refl, at)
    | inr change ↦ rw change (root_or_before v p at)
  ]

  close_from-At :
      (fd count : ℕ) (v : View) (p : Proc K)
      → At v p.kernel
      → After
          (λ u k. At (record v { table = cleared fd count v.table }) k)
          Leaves
          (close_from os fd count p)
  unfolding close_from
  close_from-At fd zero v p at = at
  close_from-At fd (suc count) v p at =
      let v1 : View = record v { table = set fd none v.table } in
      let now =
        changed (λ w. record w { table = set fd none w.table }) v (os.close fd p.kernel).1 p.kernel
          (close_drops fd p.kernel) at in
      After-bind Leaves (λ r k. At v1 k)
        (λ u k. At (record v { table = cleared fd (suc count) v.table }) k) _
        (attempt (os.close fd) p)
        (After-attempt Leaves (λ r k. At v1 k) (os.close fd) p (λ a c. now) (λ x c. now))
        (λ r p1 at1. close_from-At (suc fd) count v1 p1 at1)

  pub close_files-At :
      (flags : ℕ) (v : View) (p : Proc K)
      → At v p.kernel
      → After
          (λ u k.
            (t : ℕ → Option Text) × Agree t (closed flags os.open_max v.table)
            × At (record v { table = t }) k)
          Leaves
          (close_files os flags p)
  unfolding close_files
  close_files-At flags v p at = elim (Bool-cases (has_flag flags bd_no_close_files)) [
    | inl keep ↦ rw keep (v.table, (λ n. refl), at)
    | inr close ↦ rw close (closes v p at)
  ]
    where
      closes :
          (v : View) (p : Proc K)
          → At v p.kernel
          → After
              (λ u k.
                (t : ℕ → Option Text) × Agree t
                  (λ n. if ltb n (max_fd os.open_max) then none else v.table n)
                × At (record v { table = t }) k)
              Leaves
              (close_from os 0 (max_fd os.open_max) p)
      closes v p at =
          let max = max_fd os.open_max in
          After-map Leaves (λ u k. At (record v { table = cleared 0 max v.table }) k)
            (λ u k.
              (t : ℕ → Option Text) × Agree t (λ n. if ltb n max then none else v.table n)
              × At (record v { table = t }) k)
            (close_from os 0 max p) (close_from-At 0 max v p at)
            (λ u k at1.
              (cleared 0 max v.table, (λ n. cleared_lem 0 max v.table n ∙ ground arith), at1))

  -- a result of dup2(0, new) or of open()
  abbrev Gives : (new : ℕ) → (ℕ → View) → Option ℕ → K → Type 0
  Gives new after none k = Unit
  Gives new after (some got) k = At (after got) k

  when_fd :
      (P : K → Type 0) (new : ℕ) (after : ℕ → View) (rest : Prog K (Option (Unit {0})))
      (r : Option ℕ) (p : Proc K)
      → Gives new after r p.kernel
      → (At (after new) p.kernel → After (Succeeds P) Leaves (rest p))
      → After (Succeeds P) Leaves ((if is_fd r new then rest else pure none) p)
  when_fd P new after rest none p h behind = tt
  when_fd P new after rest (some got) p h behind = elim (Bool-cases (got == new)) [
    | inl same ↦ let e : got ≡ new = ground (arith, same) in rw same (behind (h ∙ ap after e))
    | inr different ↦ rw different tt
  ]

  dup_step :
      (P : K → Type 0) (new : ℕ) (v : View) (rest : Prog K (Option (Unit {0}))) (p : Proc K)
      → At v p.kernel
      → ((p1 : Proc K)
          → At (record v { table = set new (v.table 0) v.table }) p1.kernel
          → After (Succeeds P) Leaves (rest p1))
      → After
          (Succeeds P)
          Leaves
          (bind_result (λ r. if is_fd r new then rest else pure none) (attempt (os.dup2 0 new) p))
  dup_step P new v rest p at behind =
      let after =
        λ (got : ℕ). let w : View = record v { table = set new (v.table 0) v.table } in w in
      let k1 = (os.dup2 0 new p.kernel).1 in
      After-bind Leaves (Gives new after) (Succeeds P) _ (attempt (os.dup2 0 new) p)
        (After-attempt Leaves (Gives new after) (os.dup2 0 new) p
          (λ got c.
            changed (λ w. record w { table = set new (w.table 0) w.table }) v k1 p.kernel
              (dup_ok 0 new got p.kernel c) at)
          (λ e c. tt))
        (λ r p1 h. when_fd P new after rest r p1 h (behind p1))

  dup_null-At :
      (v : View) (p : Proc K)
      → At v p.kernel
      → After
          (Succeeds
            (At (record v { table = let t1 = set 1 (v.table 0) v.table in set 2 (t1 0) t1 })))
          Leaves
          (dup_null os p)
  unfolding dup_null
  dup_null-At v p at =
      let v1 : View = record v { table = set 1 (v.table 0) v.table } in
      let v2 : View = record v { table = set 2 (v1.table 0) v1.table } in
      dup_step (At v2) 1 v _ p at
        (λ p1 at1. dup_step (At v2) 2 v1 (pure (some tt)) p1 at1 (λ p2 at2. at2))

  reopen_null-At :
      (v : View) (p : Proc K)
      → At v p.kernel
      → After (Succeeds (At (record v { table = standard v.table }))) Leaves (reopen_null os p)
  unfolding reopen_null
  reopen_null-At v p at =
      let v0 : View = record v { table = set 0 none v.table } in
      let after =
        λ (got : ℕ). let w : View = record v { table = set got (some dev_null) v0.table } in w in
      let Goal = At (record v { table = standard v.table }) in
      let now =
        changed (λ w. record w { table = set 0 none w.table }) v (os.close 0 p.kernel).1 p.kernel
          (close_drops 0 p.kernel) at in
      After-bind Leaves (λ r k. At v0 k) (Succeeds Goal) _ (attempt (os.close 0) p)
        (After-attempt Leaves (λ r k. At v0 k) (os.close 0) p (λ u c. now) (λ e c. now))
        (λ r p1 at1.
          After-bind Leaves (Gives 0 after) (Succeeds Goal) _ (attempt (os.open_rdwr dev_null) p1)
            (After-attempt Leaves (Gives 0 after) (os.open_rdwr dev_null) p1
              (λ got c.
                changed (λ w. record w { table = set got (some dev_null) w.table }) v0
                  (os.open_rdwr dev_null p1.kernel).1 p1.kernel (open_ok dev_null p1.kernel got c)
                  at1)
              (λ e c. tt))
            (λ fd p2 h.
              when_fd Goal 0 after (dup_null os) fd p2 h (λ at2. dup_null-At (after 0) p2 at2)))

  abbrev pub Reopened : (flags : ℕ) → View → K → Type 0
  Reopened flags v k =
      (t : ℕ → Option Text) × Agree t (reopened flags v.table) × At (record v { table = t }) k

  pub reopen-At :
      (flags : ℕ) (v : View) (p : Proc K)
      → At v p.kernel
      → After (Succeeds (Reopened flags v)) Leaves (reopen os flags p)
  unfolding reopen
  reopen-At flags v p at = elim (Bool-cases (has_flag flags bd_no_reopen_std_fds)) [
    | inl keep ↦ rw keep (v.table, (λ n. rw keep refl), at)
    | inr change ↦ rw change (
        After-map Leaves (Succeeds (At (record v { table = standard v.table })))
          (Succeeds (Reopened flags v)) (reopen_null os p) (reopen_null-At v p at)
          (λ r k h.
            Succeeds-map (At (record v { table = standard v.table })) (Reopened flags v) r k h
              (λ at1. (standard v.table, (λ n. rw change (standard_lem v.table n)), at1))))
  ]
