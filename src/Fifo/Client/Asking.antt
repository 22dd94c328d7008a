-- ===== src/Fifo/Client/Asking.antt =====
-- fifo_seqnum_client.c: what the client asks for.
use my_linux_programming_int.Prelude.{
  ℕ, zero, suc, ◌≡◌, refl, ◌∙◌, ◌⊎◌, inl, inr, Bool, false, Option, none, some, List, ◌∷◌, ◌++◌, ℤ,
  pos, negsuc, ◌≤ℤ◌, Text, codes, arith,
}
use my_linux_programming_int.Sys.{Proc}
use my_linux_programming_int.Clib.Decimal.{show_int}
use my_linux_programming_int.GetNum.{Checked, returned, exited, get_int, gn_gt_0}
use my_linux_programming_int.GetNum.Accepts.{get_int_iff}
use my_linux_programming_int.Program.{
  Exit, err_exit, err_exit_now, Prog, pure, attempt, need, checked,
}
use my_linux_programming_int.Program.After.{After, After-bind, After-need, After-attempt}
use my_linux_programming_int.Fifo.Client.{
  ClientApi, server_fifo, my_fifo, when_whole, Written, whole, partial, sigpipe, after_write,
  whole_read, seq_len, receive, request, converse,
}

-- What the client relies on: `requests` are those that the server's FIFO has taken, the latest first;
-- `there` is whether the client's FIFO is there, which it may remove.
pub record ClientLaws {K : Type 0} (os : ClientApi K) : Type 0 where
  pub requests : K → List (ℕ × ℤ)
  pub there : K → Bool
  pub umask_kept : (k : K) → requests (os.clear_umask k) ≡ requests k
  pub mkfifo_kept : (path : Text) (k : K) → requests (os.mkfifo path k).1 ≡ requests k
  pub atexit_kept : (k : K) → requests (os.atexit k).1 ≡ requests k
  pub open_server_kept : (k : K) → requests (os.open_server k).1 ≡ requests k
  pub open_client_kept : (path : Text) (k : K) → requests (os.open_client path k).1 ≡ requests k
  pub read_kept : (fd : ℕ) (k : K) → requests (os.read_response fd k).1 ≡ requests k
  pub unlink_kept : (path : Text) (k : K) → requests (os.unlink path k).1 ≡ requests k
  pub unlinked : (k : K) → there (os.unlink (my_fifo os) k).1 ≡ false
  pub wrote :
      (fd pid : ℕ) (len : ℤ) (k : K)
      → (requests (os.write_request fd pid len k).1 ≡ requests k)
        ⊎ (requests (os.write_request fd pid len k).1 ≡ (pid, len) ∷ requests k)

abbrev Positive : ℤ → Type 0
Positive v = (n : ℕ) × (v ≡ pos (suc n))

at_least_one : (v : ℤ) → pos 1 ≤ℤ v → Positive v
at_least_one (pos zero) h = absurd (ground arith)
at_least_one (pos (suc n)) h = (n, refl)
at_least_one (negsuc n) h = absurd (ground arith)

module _ {K : Type 0} (os : ClientApi K) (laws : ClientLaws os) where
  open laws use {
    requests, there, umask_kept, mkfifo_kept, atexit_kept, open_server_kept, open_client_kept,
    read_kept, unlink_kept, unlinked, wrote,
  }

  -- The client has made no request, or one, with its process ID and a positive length.
  abbrev pub Asked : (before : List (ℕ × ℤ)) → K → Type 0
  Asked before k = (requests k ≡ before) ⊎ ((n : ℕ) × (requests k ≡ (os.pid, pos (suc n)) ∷ before))

  pub still :
      (before : List (ℕ × ℤ)) (k k1 : K)
      → requests k1 ≡ requests k
      → Asked before k
      → Asked before k1
  still before k k1 e (inl same) = inl (e ∙ same)
  still before k k1 e (inr (n, one)) = inr (n, e ∙ one)

  module _ (before : List (ℕ × ℤ)) where
    abbrev pub Ends : Exit → K → Type 0
    Ends (err_exit_now m) k = ⊥
    Ends e k = Asked before k

    abbrev pub Prints : Text → K → Type 0
    Prints out k = Asked before k

    whole-Asked :
        {A : Type 0} (message : Text) (r : Option A) (rest : A → Prog K Text) (p : Proc K)
        → Asked before p.kernel
        → ((a : A) → After Prints Ends (rest a p))
        → After Prints Ends (when_whole os message r rest p)
    whole-Asked message none rest p h behind = h
    whole-Asked message (some a) rest p h behind = behind a

    sends :
        (fd : ℕ) (v : ℤ) (n : ℕ) (p : Proc K)
        → v ≡ pos (suc n)
        → requests p.kernel ≡ before
        → Asked before (os.write_request fd os.pid v p.kernel).1
    sends fd v n p positive same = elim (wrote fd os.pid v p.kernel) [
      | inl none_ ↦ inl (none_ ∙ same)
      | inr one ↦ inr (n, one ∙ rw (positive, same) refl)
    ]

    receive-Asked : (p : Proc K) → Asked before p.kernel → After Prints Ends (receive os p)
    unfolding receive
    receive-Asked p h =
        let k1 = (os.open_client (my_fifo os) p.kernel).1 in
        let h1 = still before p.kernel k1 (open_client_kept (my_fifo os) p.kernel) h in
        After-bind Ends (λ fd k. Asked before k) Prints _
          (need (os.open_client (my_fifo os)) (err_exit (codes "open " ++ my_fifo os)) p)
          (After-need Ends (λ fd k. Asked before k) (os.open_client (my_fifo os))
            (err_exit (codes "open " ++ my_fifo os)) p (λ fd c. h1) (λ e c. h1))
          (λ fd p1 h2.
            let h3 =
              still before p1.kernel (os.read_response fd p1.kernel).1 (read_kept fd p1.kernel)
                h2 in
            After-bind Ends (λ r k. Asked before k) Prints _ (attempt (os.read_response fd) p1)
              (After-attempt Ends (λ r k. Asked before k) (os.read_response fd) p1 (λ r c. h3)
                (λ e c. h3))
              (λ r p2 h4.
                whole-Asked (codes "Can't read response from server") (whole_read os r)
                  (λ n. pure (show_int n ++ codes "\n")) p2 h4 (λ n. h4)))

    after_write-Asked :
        (r : Option Written) (p : Proc K)
        → Asked before p.kernel
        → After Prints Ends (after_write os r p)
    after_write-Asked none p h = h
    after_write-Asked (some partial) p h = h
    after_write-Asked (some sigpipe) p h = h
    after_write-Asked (some whole) p h = receive-Asked p h

    request-Asked :
        (v : ℤ) (p : Proc K)
        → Positive v
        → requests p.kernel ≡ before
        → After Prints Ends (request os v p)
    unfolding request
    request-Asked v p (n, positive) same =
        let k1 = (os.open_server p.kernel).1 in
        let same1 = open_server_kept p.kernel ∙ same in
        let e = err_exit (codes "open " ++ server_fifo) in
        After-bind Ends (λ fd k. requests k ≡ before) Prints _ (need os.open_server e p)
          (After-need Ends (λ fd k. requests k ≡ before) os.open_server e p (λ fd c. same1)
            (λ x c. inl same1))
          (λ fd p1 same2.
            let h3 = sends fd v n p1 positive same2 in
            After-bind Ends (λ r k. Asked before k) Prints _
              (attempt (os.write_request fd os.pid v) p1)
              (After-attempt Ends (λ r k. Asked before k) (os.write_request fd os.pid v) p1
                (λ r c. h3) (λ e c. h3))
              after_write-Asked)

    seq_len-Positive :
        (arg : Option Text) (p : Proc K)
        → requests p.kernel ≡ before
        → After (λ v k. Positive v × (requests k ≡ before)) Ends (seq_len os arg p)
    seq_len-Positive none p same = ((0, refl), same)
    seq_len-Positive (some arg) p same =
        of_checked (get_int (some arg) gn_gt_0 (some (codes "seq-len"))) (λ v e.
          at_least_one v (((get_int_iff arg gn_gt_0 (some (codes "seq-len")) v).0 e).positive refl))
      where
        of_checked :
            (c : Checked ℤ)
            → ((v : ℤ) → c ≡ returned v → Positive v)
            → After (λ v k. Positive v × (requests k ≡ before)) Ends (checked c p)
        of_checked (returned v) h = (h v refl, same)
        of_checked (exited status text) h = inl same

    pub converse-Asked :
        (arg : Option Text) (p : Proc K)
        → requests p.kernel ≡ before
        → After Prints Ends (converse os arg p)
    unfolding converse
    converse-Asked arg p same =
        After-bind Ends (λ v k. Positive v × (requests k ≡ before)) Prints _ (seq_len os arg p)
          (seq_len-Positive arg p same) (λ v p1 h. request-Asked v p1 h.0 h.1)
