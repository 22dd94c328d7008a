-- ===== src/Errors/Tests.antt =====
-- lib/error_functions.c with buffered output and a failed call.
use my_linux_programming_int.Prelude.{ℕ, true, false, none, [], Text, codes}
use my_linux_programming_int.Errors.{
  Stdio, exited, exited_now, err_exit, err_exit_en, fatal, err_exit_now,
}
use my_linux_programming_int.Errors.Messages.{report, Leaves, exits_lem}

abbrev strerror : ℕ → Text
strerror n = codes "No such file or directory"

abbrev disturbed : Stdio → ℕ
disturbed s = 25

abbrev stdio : Stdio
stdio = record { pending = codes "line\n"; out = []; err = []; errno = 2 }

exits_lem_example :
    Leaves
      (exited 1)
      []
      (codes "line\n")
      (report strerror true 2 (codes "fork"))
      (err_exit strerror disturbed none (codes "fork") stdio)
    × Leaves
        (exited 1)
        []
        (codes "line\n")
        (report strerror true 11 (codes "fork"))
        (err_exit_en strerror disturbed none 11 (codes "fork") stdio)
    × Leaves
        (exited 1)
        []
        (codes "line\n")
        (report strerror false 0 (codes "fork"))
        (fatal strerror disturbed none (codes "fork") stdio)
    × Leaves
        (exited_now 1)
        (codes "line\n")
        []
        (report strerror true 2 (codes "fork"))
        (err_exit_now strerror disturbed none (codes "fork") stdio)
exits_lem_example = exits_lem strerror disturbed none 11 (codes "fork") stdio tt
