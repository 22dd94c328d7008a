-- ===== src/Echo/Rounds.antt =====
-- 60-socket-design/is_echo_sv.c: what a child sends back, and what the server keeps open.
use my_linux_programming_int.Prelude.{
  ℕ, ◌<◌, ◌≡◌, sym, ◌∙◌, Bool, true, false, Option, none, some, [], ◌++◌, append-nil, arith,
}
use mathlib.Core.Path.{subst}
use my_linux_programming_int.Sys.{Proc}
use my_linux_programming_int.Sys.Table.{set, Agree}
use my_linux_programming_int.Io.Pump.{End, eof, read_error, write_error, pump}
use my_linux_programming_int.Io.Pump.Kept.{Kept, pump-Kept}
use my_linux_programming_int.Io.Pump.Correct.{Outcome, pump_lem}
use my_linux_programming_int.Program.{
  Exit, success, failure, usage_err, cmd_line_err, err_exit, err_exit_now, fatal, gn_fail, killed,
  bind_result, of_fueled,
}
use my_linux_programming_int.Program.After.{After}
use my_linux_programming_int.Echo.{EchoApi, echo_buf_size, after_copy, handle_request}
use my_linux_programming_int.Echo.Laws.{Connection, EchoLaws}

module _ {K : Type 0} (os : EchoApi K) (laws : EchoLaws os) where
  open laws use {
    opened, accept_ok, prompt_kept, fork_kept, close_drops, talk, latest, accept_latest,
    prompt_still, fork_still, close_still, read_latest, write_latest, most, bounded,
  }

  -- All that came on a connection, to its end, is sent back on it, and nothing else.
  abbrev pub Echoed : Connection → K → Type 0
  Echoed c now =
      ((talk c.fd).writes.sink now ≡ c.taken ++ c.to_come) × ((talk c.fd).reads.stream now ≡ [])

  -- A process ends with failure, or it is a child that has served the connection accepted last.
  abbrev pub Serves : Exit → K → Type 0
  Serves success k = Echoed (latest k) k
  Serves failure k = Unit
  Serves (usage_err m) k = ⊥
  Serves (cmd_line_err m) k = ⊥
  Serves (err_exit m) k = ⊥
  Serves (err_exit_now m) k = ⊥
  Serves (fatal m) k = ⊥
  Serves (gn_fail m) k = ⊥
  Serves killed k = ⊥

  abbrev now_at : (cfd : ℕ) → K → Connection
  now_at cfd k = record {
    fd = cfd;
    taken = (talk cfd).writes.sink k;
    to_come = (talk cfd).reads.stream k;
  }

  -- the latest connection is on `cfd`, with nothing of it read or written yet
  abbrev Fresh : (cfd : ℕ) → K → Type 0
  Fresh cfd k = latest k ≡ now_at cfd k

  -- With fuel for what the client sends, the child ends with failure, or has echoed all of it.
  pub handle_request-Echoed :
      (fuel cfd : ℕ) (p : Proc K)
      → most < fuel
      → Fresh cfd p.kernel
      → After (λ u k. Echoed (latest k) k) Serves (handle_request os fuel cfd p)
  unfolding handle_request
  handle_request-Echoed fuel cfd p enough fresh =
      copied (pump (os.read cfd) (os.write cfd) fuel echo_buf_size p)
        (pump_lem (os.read cfd) (os.write cfd) (talk cfd) fuel echo_buf_size p (omega arith)
          (omega (arith, bounded cfd p.kernel)))
        (pump-Kept (os.read cfd) (os.write cfd) latest (read_latest cfd) (write_latest cfd) fuel
          echo_buf_size p)
    where
      copied :
          (r : Option (End × Proc K))
          → Outcome
              (os.read cfd)
              (os.write cfd)
              (talk cfd)
              echo_buf_size
              ((talk cfd).writes.sink p.kernel ++ (talk cfd).reads.stream p.kernel)
              r
          → Kept
              (os.read cfd)
              (os.write cfd)
              latest
              (read_latest cfd)
              (write_latest cfd)
              (latest p.kernel)
              r
          → After (λ u k. Echoed (latest k) k) Serves (bind_result (after_copy os) (of_fueled p r))
      copied none h kept = absurd h
      copied (some (eof, p1)) h kept =
          let (lost, ahead) = h.complete in
          let echoed : Echoed (now_at cfd p.kernel) p1.kernel = (
            sym (h.conserved ∙ rw (lost, ahead) (append-nil ((talk cfd).writes.sink p1.kernel))),
            ahead,
          ) in
          subst (λ c. Echoed c p1.kernel) (sym (kept ∙ fresh)) echoed
      copied (some (read_error, p1)) h kept = tt
      copied (some (write_error, p1)) h kept = tt

  -- the descriptors of the server
  abbrev Has : (ℕ → Bool) → K → Type 0
  Has t k = Agree (opened k) t

  module _ (fuel lfd : ℕ) (t : ℕ → Bool) (enough : most < fuel) where
    -- the connection `cfd`, on which nothing has been done
    abbrev Open : (cfd : ℕ) → K → Type 0
    Open cfd k = Has (set cfd true t) k × Fresh cfd k

    -- a connection that accept() gave
    abbrev Accepted : Option ℕ → K → Type 0
    Accepted none k = Unit
    Accepted (some cfd) k = (t cfd ≡ false) × Open cfd k
