-- ===== src/Timers.antt =====
-- lib/itimerspec_from_str.c: timer specifications on the command line.
pub mod RoundTrip
mod Tests
use my_linux_programming_int.Prelude.{
  ℕ, Option, none, some, [], ◌∷◌, ◌==◌, if◌then◌else◌, ℤ, pos, Text,
}
use my_linux_programming_int.Clib.Strtol.{atoi}

pub record TimeSpec : Type 0 where
  pub tv_sec : ℤ
  pub tv_nsec : ℤ

pub record ItimerSpec : Type 0 where
  pub it_value : TimeSpec
  pub it_interval : TimeSpec

-- `p = strchr(s, sep); if (p != NULL) *p = '\0';`: the string that `s` then is, and `p + 1`.
pub cut : (sep : ℕ) → Text → Text × Option Text
cut sep [] = ([], none)
cut sep (c ∷ s) =
    let (before, behind) = cut sep s in if c == sep then ([], some s) else (c ∷ before, behind)

-- a number, or the 0 of one that is left out
abbrev number : Option Text → ℤ
number none = pos 0
number (some s) = atoi s

-- seconds, and the nanoseconds behind a slash
pub time_of : Text → TimeSpec
time_of s = let (sec, nsec) = cut b'/' s in record { tv_sec = atoi sec; tv_nsec = number nsec }

pub itimerspec_from_str : Text → ItimerSpec
itimerspec_from_str str =
    let (value, interval) = cut b':' str in
    record {
      it_value = time_of value;
      it_interval = elim interval [
        | none ↦ record { tv_sec = pos 0; tv_nsec = pos 0 }
        | some s ↦ time_of s
      ];
    }
