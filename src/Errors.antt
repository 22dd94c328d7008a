-- ===== src/Errors.antt =====
-- lib/error_functions.c: diagnostics, and the ends of a process that they come with. The messages are
-- given as `vsnprintf` with room enough prints them.
pub mod Messages
pub mod Names
mod Tests
use my_linux_programming_int.Prelude.{
  ℕ, Bool, true, false, ◌&&◌, Option, none, some, [], ◌∷◌, ◌++◌, ltb, leb, if◌then◌else◌, get_or,
  Text, codes,
}
use my_linux_programming_int.Clib.Strings.{snprintf}
use my_linux_programming_int.Errors.Names.{ename, max_ename}

-- The standard streams: what `stdout` still buffers, what it has written, and what `stderr` has.
pub record Stdio : Type 0 where
  pub pending : Text
  pub out : Text
  pub err : Text
  pub errno : ℕ

-- How a process ends; `exited` is by exit(3), `exited_now` by _exit(2).
pub data Ending : Type 0 where
  aborted : Ending
  exited exited_now : (status : ℕ) → Ending

-- `fflush(stdout)`, which exit(3) does too
pub flush : Stdio → Stdio
flush s = record s { pending = []; out = s.out ++ s.pending }

-- `terminate`; `dump_core` is the variable EF_DUMPCORE
pub terminate : (dump_core : Option Text) (use_exit3 : Bool) → Stdio → Ending × Stdio
terminate (some (c ∷ v)) use_exit3 s = (aborted, s)
terminate (some []) true s = (exited 1, flush s)
terminate (some []) false s = (exited_now 1, s)
terminate none true s = (exited 1, flush s)
terminate none false s = (exited_now 1, s)

abbrev pub buf_size : ℕ
buf_size = 500

-- "ERROR%s %s\n"
abbrev pub line : (err_text user_msg : Text) → Text
line err_text user_msg = codes "ERROR" ++ (err_text ++ (codes " " ++ (user_msg ++ codes "\n")))

abbrev pub name_of : ℕ → Text
name_of err = if ltb 0 err && leb err max_ename then get_or ename err [] else codes "?UNKNOWN?"

-- " [%s %s]" or ":"
abbrev pub diagnosis : (strerror : ℕ → Text) (use_err : Bool) (err : ℕ) → Text
diagnosis strerror true err =
    codes " [" ++ (name_of err ++ (codes " " ++ (strerror err ++ codes "]")))
diagnosis strerror false err = codes ":"

-- `strerror`, and the `errno` that the calls on the streams leave behind.
module _ (strerror : ℕ → Text) (disturbed : Stdio → ℕ) where
  pub output_error : (use_err : Bool) (err : ℕ) (flush_stdout : Bool) (msg : Text) → Stdio → Stdio
  output_error use_err err flush_stdout msg s =
      let user_msg = snprintf buf_size msg in
      let err_text = snprintf buf_size (diagnosis strerror use_err err) in
      let buf = snprintf buf_size (line err_text user_msg) in
      let s1 = if flush_stdout then flush s else s in
      record s1 { err = s1.err ++ buf; errno = disturbed s1 }

  -- `errMsg`
  pub err_msg : (msg : Text) → Stdio → Stdio
  err_msg msg s = record (output_error true s.errno true msg s) { errno = s.errno }

  module _ (dump_core : Option Text) where
    -- `errExit`
    pub err_exit : (msg : Text) → Stdio → Ending × Stdio
    err_exit msg s = terminate dump_core true (output_error true s.errno true msg s)

    -- `err_exit`
    pub err_exit_now : (msg : Text) → Stdio → Ending × Stdio
    err_exit_now msg s = terminate dump_core false (output_error true s.errno false msg s)

    -- `errExitEN`
    pub err_exit_en : (errnum : ℕ) (msg : Text) → Stdio → Ending × Stdio
    err_exit_en errnum msg s = terminate dump_core true (output_error true errnum true msg s)

    pub fatal : (msg : Text) → Stdio → Ending × Stdio
    fatal msg s = terminate dump_core true (output_error false 0 true msg s)

-- `usageErr` and `cmdLineErr`
pub usage_err : (msg : Text) → Stdio → Ending × Stdio
usage_err msg s =
    let s1 = flush s in (exited 1, flush (record s1 { err = s1.err ++ (codes "Usage: " ++ msg) }))

pub cmd_line_err : (msg : Text) → Stdio → Ending × Stdio
cmd_line_err msg s =
    let s1 = flush s in
    (exited 1, flush (record s1 { err = s1.err ++ (codes "Command-line usage error: " ++ msg) }))
