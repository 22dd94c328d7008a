-- ===== src/Terminal/Modes.antt =====
-- lib/tty_functions.c: the settings that a terminal is asked to take, and those that it has.
use my_linux_programming_int.Prelude.{
  ℕ, ◌≡◌, refl, ap, ◌∙◌, ◌⊎◌, inl, inr, true, false, Option, none, some, List, [], ◌∷◌, All, arith,
}
use mathlib.Core.Path.{subst}
use my_linux_programming_int.Sys.{Proc, ok, fail, Reply-cases}
use my_linux_programming_int.Terminal.{
  Word, Termios, among, isig, icanon, echo, iexten, opost, ignbrk, brkint, parmrk, inpck, istrip,
  inlcr, igncr, icrnl, ixon, vtime, vmin, cbreak, raw, TtyApi, save, set_mode, tty_set_cbreak,
  tty_set_raw,
}

-- Every setting is as in `asked` or as in `before`.
pub record Between (before asked now : Termios) : Type 0 where
  pub iflag : (b : ℕ) → (now.c_iflag b ≡ asked.c_iflag b) ⊎ (now.c_iflag b ≡ before.c_iflag b)
  pub oflag : (b : ℕ) → (now.c_oflag b ≡ asked.c_oflag b) ⊎ (now.c_oflag b ≡ before.c_oflag b)
  pub lflag : (b : ℕ) → (now.c_lflag b ≡ asked.c_lflag b) ⊎ (now.c_lflag b ≡ before.c_lflag b)
  pub control : (j : ℕ) → (now.c_cc j ≡ asked.c_cc j) ⊎ (now.c_cc j ≡ before.c_cc j)

-- What the functions rely on: `settings` are those of the terminal, `requests` those that tcsetattr()
-- has been called with, the latest first. It succeeds where any of the changes could be made, and
-- fails where none could.
pub record TtyLaws {K : Type 0} (os : TtyApi K) : Type 0 where
  pub settings : K → Termios
  pub requests : K → List Termios
  pub got : (k : K) (t : Termios) → (os.tcgetattr k).0 ≡ ok t → t ≡ settings k
  pub got_kept : (k : K) → settings (os.tcgetattr k).1 ≡ settings k
  pub no_request : (k : K) → requests (os.tcgetattr k).1 ≡ requests k
  pub asked : (t : Termios) (k : K) → requests (os.tcsetattr t k).1 ≡ t ∷ requests k
  pub put :
      (t : Termios) (k : K)
      → (os.tcsetattr t k).0 ≡ ok tt
      → Between (settings k) t (settings (os.tcsetattr t k).1)
  pub put_kept :
      (t : Termios) (k : K) (e : ℕ)
      → (os.tcsetattr t k).0 ≡ fail e
      → settings (os.tcsetattr t k).1 ≡ settings k

-- The bits `on` are set in `w`, the bits `off` are not, and the others are as in `before`.
pub record Differs (on off : List ℕ) (before w : Word) : Type 0 where
  pub set : All (λ b. w b ≡ true) on
  pub cleared : All (λ b. w b ≡ false) off
  pub others : (b : ℕ) → (among on b ≡ true) ⊎ (among off b ≡ true) ⊎ (w b ≡ before b)

-- Reads return a byte at a time, and wait for it.
pub record ByteAtATime (before cc : ℕ → ℕ) : Type 0 where
  pub min : cc vmin ≡ 1
  pub time : cc vtime ≡ 0
  pub others : (j : ℕ) → (j ≡ vmin) ⊎ (j ≡ vtime) ⊎ (cc j ≡ before j)

-- Cbreak mode: no lines, no echo, no newline for a carriage return, but signals by characters.
pub record IsCbreak (before t : Termios) : Type 0 where
  pub local : Differs (isig ∷ []) (icanon ∷ echo ∷ []) before.c_lflag t.c_lflag
  pub input : Differs [] (icrnl ∷ []) before.c_iflag t.c_iflag
  pub output : t.c_oflag ≡ before.c_oflag
  pub control : ByteAtATime before.c_cc t.c_cc

-- Raw mode: no processing of input, of output or for signals.
pub record IsRaw (before t : Termios) : Type 0 where
  pub local : Differs [] (echo ∷ icanon ∷ iexten ∷ isig ∷ []) before.c_lflag t.c_lflag
  pub input :
      Differs []
        (ignbrk ∷ brkint ∷ parmrk ∷ inpck ∷ istrip ∷ inlcr ∷ igncr ∷ icrnl ∷ ixon ∷ [])
        before.c_iflag
        t.c_iflag
  pub output : Differs [] (opost ∷ []) before.c_oflag t.c_oflag
  pub control : ByteAtATime before.c_cc t.c_cc

module _ (t : Termios) where
  cbreak-ByteAtATime : ByteAtATime t.c_cc (cbreak t).c_cc
  unfolding cbreak
  cbreak-ByteAtATime = record { min = refl; time = refl; others = λ j. ground arith }

  raw-ByteAtATime : ByteAtATime t.c_cc (raw t).c_cc
  unfolding raw
  raw-ByteAtATime = record { min = refl; time = refl; others = λ j. ground arith }

  cbreak-IsCbreak : IsCbreak t (cbreak t)
  unfolding cbreak
  cbreak-IsCbreak = record {
    local = record { set = (refl, tt); cleared = (refl, (refl, tt)); others = λ b. ground arith };
    input = record { set = tt; cleared = (refl, tt); others = λ b. ground arith };
    output = refl;
    control = cbreak-ByteAtATime;
  }

  raw_input :
      Differs []
        (ignbrk ∷ brkint ∷ parmrk ∷ inpck ∷ istrip ∷ inlcr ∷ igncr ∷ icrnl ∷ ixon ∷ [])
        t.c_iflag
        (raw t).c_iflag
  unfolding raw
  raw_input = record {
    set = tt;
    cleared = (refl, (refl, (refl, (refl, (refl, (refl, (refl, (refl, (refl, tt)))))))));
    others = λ b. ground arith;
  }

  raw-IsRaw : IsRaw t (raw t)
  unfolding raw
  raw-IsRaw = record {
    local = record {
      set = tt;
      cleared = (refl, (refl, (refl, (refl, tt))));
      others = λ b. ground arith;
    };
    input = raw_input;
    output = record { set = tt; cleared = (refl, tt); others = λ b. ground arith };
    control = raw-ByteAtATime;
  }

module _ {K : Type 0} (os : TtyApi K) (laws : TtyLaws os) where
  open laws use {settings, requests, got, got_kept, no_request, asked, put, put_kept}

  -- The terminal was asked once, for settings as `IsMode` describes them from those before.
  pub record Changed (IsMode : Termios → Termios → Type 0) (k k1 : K) : Type 0 where
    pub wanted : Termios
    pub described : IsMode (settings k) wanted
    pub once : requests k1 ≡ wanted ∷ requests k
    pub each : Between (settings k) wanted (settings k1)

  -- On success the settings before are saved if a buffer is given.
  abbrev pub Sets :
      (IsMode : Termios → Termios → Type 0) (k : K) (prev : Option Termios)
      → (Option (Unit {0}) × Option Termios) × Proc K
      → Type 0
  Sets IsMode k prev ((none, saved), p) = settings p.kernel ≡ settings k
  Sets IsMode k none ((some u, saved), p) = Changed IsMode k p.kernel × (saved ≡ none)
  Sets IsMode k (some b) ((some u, saved), p) =
      Changed IsMode k p.kernel × (saved ≡ some (settings k))

  module _ (mode : Termios → Termios) (IsMode : Termios → Termios → Type 0)
      (mode-IsMode : (t : Termios) → IsMode t (mode t)) where
    set_mode-Changed :
        (k : K) (t : Termios)
        → (os.tcgetattr k).0 ≡ ok t
        → let k1 = (os.tcgetattr k).1 in
          (os.tcsetattr (mode t) k1).0 ≡ ok tt → Changed IsMode k (os.tcsetattr (mode t) k1).1
    set_mode-Changed k t c d =
        let k1 = (os.tcgetattr k).1 in
        record {
          wanted = mode t;
          described = subst (λ s. IsMode s (mode t)) (got k t c) (mode-IsMode t);
          once = asked (mode t) k1 ∙ ap (λ l. mode t ∷ l) (no_request k);
          each =
              subst (λ s. Between s (mode t) (settings (os.tcsetattr (mode t) k1).1)) (got_kept k)
                (put (mode t) k1 d);
        }

    set_mode_ok :
        (prev : Option Termios) (p : Proc K) (t : Termios)
        → (os.tcgetattr p.kernel).0 ≡ ok t
        → (os.tcsetattr (mode t) (os.tcgetattr p.kernel).1).0 ≡ ok tt
        → set_mode os mode prev p ≡ (
          (some tt, save prev t),
          record p { kernel = (os.tcsetattr (mode t) (os.tcgetattr p.kernel).1).1 },
        )
    unfolding set_mode
    set_mode_ok prev p t c d = ground arith

    saved :
        (prev : Option Termios) (p : Proc K) (t : Termios)
        → (os.tcgetattr p.kernel).0 ≡ ok t
        → (os.tcsetattr (mode t) (os.tcgetattr p.kernel).1).0 ≡ ok tt
        → Sets IsMode p.kernel prev (set_mode os mode prev p)
    saved none p t c d = rw (set_mode_ok none p t c d) (set_mode-Changed p.kernel t c d, refl)
    saved (some b) p t c d =
        rw (set_mode_ok (some b) p t c d)
          (set_mode-Changed p.kernel t c d, ap some (got p.kernel t c))

    set_mode-Sets :
        (prev : Option Termios) (p : Proc K) → Sets IsMode p.kernel prev (set_mode os mode prev p)
    unfolding set_mode
    set_mode-Sets prev p = elim (Reply-cases (os.tcgetattr p.kernel).0) [
      | inr (e, c) ↦ ground (arith, got_kept p.kernel)
      | inl (t, c) ↦
          let k = (os.tcgetattr p.kernel).1 in
          elim (Reply-cases (os.tcsetattr (mode t) k).0) [
            | inr (e, d) ↦ ground (arith, put_kept (mode t) k e d, got_kept p.kernel)
            | inl (u, d) ↦ saved prev p t c d
          ]
    ]

  -- `ttySetCbreak` and `ttySetRaw`, each on any reply of the system calls: on success the terminal has
  -- been asked once, for the settings before with the changes of its mode and no others, each setting
  -- is then as asked or as before, and those before are stored if a buffer is given; on failure
  -- the settings are as before.
  pub tty_set-Sets :
      (prev : Option Termios) (p : Proc K)
      → Sets IsCbreak p.kernel prev (tty_set_cbreak os prev p)
        × Sets IsRaw p.kernel prev (tty_set_raw os prev p)
  unfolding tty_set_raw tty_set_cbreak
  tty_set-Sets prev p = (
    set_mode-Sets cbreak IsCbreak cbreak-IsCbreak prev p,
    set_mode-Sets raw IsRaw raw-IsRaw prev p,
  )
