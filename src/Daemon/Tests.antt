-- ===== src/Daemon/Tests.antt =====
-- A kernel that is what a process has, and the end of the way in the second child.
use my_linux_programming_int.Prelude.{ℕ, ◌≡◌, refl, ap, true, false, none, some, Text, codes}
use my_linux_programming_int.Sys.{ok, fail, Proc}
use my_linux_programming_int.Sys.Table.{set}
use my_linux_programming_int.Program.After.{After}
use my_linux_programming_int.Daemon.View.{View, DaemonLaws, Leaves, Succeeds, Daemon}
use my_linux_programming_int.Daemon.Detached.{become_daemon-Daemon}
use my_linux_programming_int.Daemon.{
  DaemonApi, bd_no_chdir, fork_off, clear_umask, change_dir, close_from, close_files, dup_null,
  reopen_null, reopen, tidy, second_fork, new_session, become_daemon,
}

abbrev views : DaemonApi View
views = record {
  fork = λ k. (ok 0, record k { leader = false });
  setsid = λ k. (ok tt, record k { leader = true; terminal = false });
  umask = λ m k. record k { mask = m };
  chdir = λ d k. (ok tt, record k { cwd = d });
  open_max = some 4;
  close = λ fd k. (ok tt, record k { table = set fd none k.table });
  open_rdwr = λ path k. (ok 0, record k { table = set 0 (some path) k.table });
  dup2 = λ old new k. (ok new, record k { table = set new (k.table old) k.table });
}

opened_at :
    (path : Text) (k : View) (fd : ℕ)
    → ok 0 ≡ ok fd
    → (views.open_rdwr path k).1 ≡ record k { table = set fd (some path) k.table }
opened_at path k fd e =
    let same : 0 ≡ fd = cc in
    ap (λ n. let w : View = record k { table = set n (some path) k.table } in w) same

never_fails : {A : Type 0} (a : A) (e : ℕ) → ok a ≡ fail e → ⊥
never_fails a e h = cc

abbrev views_laws : DaemonLaws views
views_laws = record {
  view = λ k. k;
  fork_child = λ k c. refl;
  setsid_ok = λ k u c. refl;
  umask_sets = λ m k. refl;
  chdir_ok = λ d k u c. refl;
  root_fail = λ k e c. absurd (never_fails tt e c);
  close_drops = λ fd k. refl;
  open_ok = λ path k fd c. opened_at path k fd c;
  dup_ok = λ old new got k c. refl;
}

abbrev login : Proc View
login = record {
  errno = 0;
  kernel = record {
    table = λ n. some (codes "/dev/tty1");
    leader = true;
    terminal = true;
    mask = 18;
    cwd = codes "/root";
    barred = false;
  };
}

descriptors : (become_daemon views bd_no_chdir login).1.kernel.table 3 ≡ none
unfolding become_daemon new_session second_fork fork_off tidy clear_umask change_dir close_files
    close_from reopen reopen_null dup_null
descriptors = refl

become_daemon-Daemon_example :
    After
      (Succeeds (λ k. Daemon bd_no_chdir (some 4) login.kernel k))
      Leaves
      (become_daemon views bd_no_chdir login)
become_daemon-Daemon_example = become_daemon-Daemon views views_laws bd_no_chdir login
