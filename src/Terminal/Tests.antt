-- ===== src/Terminal/Tests.antt =====
-- lib/tty_functions.c on a terminal whose settings always change.
use my_linux_programming_int.Prelude.{ℕ, ◌≡◌, refl, sym, inl, false, some, List, [], ◌∷◌}
use my_linux_programming_int.Sys.{ok, fail, Proc}
use my_linux_programming_int.Terminal.{Termios, TtyApi, tty_set_cbreak, tty_set_raw}
use my_linux_programming_int.Terminal.Modes.{TtyLaws, IsCbreak, IsRaw, Sets, tty_set-Sets}

record Tty : Type 0 where
  pub settings : Termios
  pub requests : List Termios

abbrev terminal : TtyApi Tty
terminal = record {
  tcgetattr = λ k. (ok k.settings, k);
  tcsetattr = λ t k. (ok tt, record { settings = t; requests = t ∷ k.requests });
}

ok-inj : {A : Type 0} {a b : A} → ok a ≡ ok b → a ≡ b
ok-inj e = cc

not_failed : {A : Type 0} (a : A) (e : ℕ) → ok a ≡ fail e → ⊥
not_failed a e h = cc

abbrev laws : TtyLaws terminal
laws = record {
  settings = λ k. k.settings;
  requests = λ k. k.requests;
  got = λ k t e. sym (ok-inj e);
  got_kept = λ k. refl;
  no_request = λ k. refl;
  asked = λ t k. refl;
  put = λ t k e. record {
    iflag = λ b. inl refl;
    oflag = λ b. inl refl;
    lflag = λ b. inl refl;
    control = λ j. inl refl;
  };
  put_kept = λ t k e h. absurd (not_failed {A = Unit {0}} tt e h);
}

abbrev blank : Termios
blank = record { c_iflag = λ b. false; c_oflag = λ b. false; c_lflag = λ b. false; c_cc = λ i. 0 }

abbrev proc : Proc Tty
proc = record { errno = 0; kernel = record { settings = blank; requests = [] } }

tty_set-Sets_example :
    Sets terminal laws IsCbreak proc.kernel (some blank) (tty_set_cbreak terminal (some blank) proc)
    × Sets terminal laws IsRaw proc.kernel (some blank) (tty_set_raw terminal (some blank) proc)
tty_set-Sets_example = tty_set-Sets terminal laws (some blank) proc
