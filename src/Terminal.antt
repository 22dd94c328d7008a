-- ===== src/Terminal.antt =====
-- lib/tty_functions.c: `ttySetCbreak` and `ttySetRaw`.
pub mod Modes
mod Tests
use my_linux_programming_int.Prelude.{
  ℕ, Bool, true, false, Option, none, some, List, [], ◌∷◌, ◌==◌, if◌then◌else◌,
}
use my_linux_programming_int.Sys.{Call, Proc, sys, Act}

-- A word of flags, by the numbers of its bits.
abbrev pub Word : Type 0
Word = ℕ → Bool

abbrev pub among : List ℕ → ℕ → Bool
among [] b = false
among (x ∷ xs) b = if b == x then true else among xs b

-- `w &= ~(...)`
abbrev pub clear : (bits : List ℕ) → Word → Word
clear bits w b = if among bits b then false else w b

-- `w |= ...`
abbrev pub raise : (bits : List ℕ) → Word → Word
raise bits w b = if among bits b then true else w b

-- `cc[i] = v`
abbrev pub store : (i v : ℕ) → (ℕ → ℕ) → ℕ → ℕ
store i v cc j = if j == i then v else cc j

-- `struct termios`
pub record Termios : Type 0 where
  pub c_iflag : Word
  pub c_oflag : Word
  pub c_lflag : Word
  pub c_cc : ℕ → ℕ

-- The bits on Linux.
abbrev pub isig : ℕ
isig = 0

abbrev pub icanon : ℕ
icanon = 1

abbrev pub echo : ℕ
echo = 3

abbrev pub iexten : ℕ
iexten = 15

abbrev pub opost : ℕ
opost = 0

abbrev pub ignbrk : ℕ
ignbrk = 0

abbrev pub brkint : ℕ
brkint = 1

abbrev pub parmrk : ℕ
parmrk = 3

abbrev pub inpck : ℕ
inpck = 4

abbrev pub istrip : ℕ
istrip = 5

abbrev pub inlcr : ℕ
inlcr = 6

abbrev pub igncr : ℕ
igncr = 7

abbrev pub icrnl : ℕ
icrnl = 8

abbrev pub ixon : ℕ
ixon = 10

abbrev pub vtime : ℕ
vtime = 5

abbrev pub vmin : ℕ
vmin = 6

-- what `ttySetCbreak` makes of the settings
pub cbreak : Termios → Termios
cbreak t = record t {
  c_lflag = raise (isig ∷ []) (clear (icanon ∷ echo ∷ []) t.c_lflag);
  c_iflag = clear (icrnl ∷ []) t.c_iflag;
  c_cc = store vtime 0 (store vmin 1 t.c_cc);
}

-- what `ttySetRaw` makes of the settings
pub raw : Termios → Termios
raw t = record t {
  c_lflag = clear (icanon ∷ isig ∷ iexten ∷ echo ∷ []) t.c_lflag;
  c_iflag =
      clear (brkint ∷ icrnl ∷ ignbrk ∷ igncr ∷ inlcr ∷ inpck ∷ istrip ∷ ixon ∷ parmrk ∷ [])
        t.c_iflag;
  c_oflag = clear (opost ∷ []) t.c_oflag;
  c_cc = store vtime 0 (store vmin 1 t.c_cc);
}

-- The terminal behind `fd`.
pub record TtyApi (K : Type 0) : Type 0 where
  pub tcgetattr : Call K Termios
  pub tcsetattr : Termios → Call K (Unit {0})  -- with TCSAFLUSH

-- `*prevTermios = t`, where the pointer is not null
abbrev pub save : Option Termios → Termios → Option Termios
save none t = none
save (some _) t = some t

module _ {K : Type 0} (os : TtyApi K) where
  -- Both functions; `prev` is `*prevTermios`, or `none` for a null pointer, and is returned as it then is.
  pub set_mode :
      (mode : Termios → Termios) (prev : Option Termios)
      → Act K (Option (Unit {0}) × Option Termios)
  set_mode mode prev p =
      let (got, p1) = sys os.tcgetattr p in
      elim got [
        | none ↦ ((none, prev), p1)
        | some t ↦ let (r, p2) = sys (os.tcsetattr (mode t)) p1 in ((r, save prev t), p2)
      ]

  pub tty_set_cbreak : (prev : Option Termios) → Act K (Option (Unit {0}) × Option Termios)
  tty_set_cbreak = set_mode cbreak

  pub tty_set_raw : (prev : Option Termios) → Act K (Option (Unit {0}) × Option Termios)
  tty_set_raw = set_mode raw
