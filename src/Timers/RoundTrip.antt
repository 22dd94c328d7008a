-- ===== src/Timers/RoundTrip.antt =====
-- lib/itimerspec_from_str.c: the documented forms are read back.
use my_linux_programming_int.Prelude.{
  ℕ, ◌+◌, ◌%◌, ◌≡◌, refl, true, false, Option, none, some, [], ◌∷◌, ◌++◌, append-nil, ◌==◌, ℤ, pos,
  negsuc, ◌≤ℤ◌, Text, All, All-append, arith,
}
use my_linux_programming_int.Clib.Decimal.{show_int}
use my_linux_programming_int.Clib.RoundTrip.{atoi-show_int}
use my_linux_programming_int.Clib.Digits.{show_int-All}
use my_linux_programming_int.Clib.Strtol.{int_max, atoi, starts_with_digit}
use my_linux_programming_int.Timers.{TimeSpec, cut, time_of, itimerspec_from_str}

-- a byte that separates nothing
abbrev IsPlain : ℕ → Type 0
IsPlain c = ((c == b'/') ≡ false) × ((c == b':') ≡ false)

IsPlain-digit : (n : ℕ) → IsPlain (b'0' + n % 10)
IsPlain-digit n = ground arith

show_int-IsPlain : (z : ℤ) → All IsPlain (show_int z)
show_int-IsPlain z = show_int-All IsPlain IsPlain-digit (refl, refl) z

module _ (sep : ℕ) (P : ℕ → Type 0) (other : (c : ℕ) → P c → (c == sep) ≡ false) where
  cut_at :
      (s rest : Text) → All P s → (sep == sep) ≡ true → cut sep (s ++ sep ∷ rest) ≡ (s, some rest)
  unfolding cut
  cut_at [] rest h same = rw same refl
  cut_at (c ∷ s) rest (hc, hs) same = rw (cut_at s rest hs same, other c hc) refl

  cut-none : (s : Text) → All P s → cut sep s ≡ (s, none)
  unfolding cut
  cut-none [] h = refl
  cut-none (c ∷ s) (hc, hs) = rw (cut-none s hs, other c hc) refl

-- Seconds, and nanoseconds if they are given.
abbrev pub Time : Type 0
Time = ℤ × Option ℤ

abbrev pub IsInt : ℤ → Type 0
IsInt z = (negsuc int_max ≤ℤ z) × (z ≤ℤ pos int_max)

abbrev pub IsTime : Time → Type 0
IsTime (sec, none) = IsInt sec
IsTime (sec, some nsec) = IsInt sec × IsInt nsec

-- `sec` or `sec/nsec`
abbrev pub show_time : Time → Text
show_time (sec, none) = show_int sec
show_time (sec, some nsec) = show_int sec ++ b'/' ∷ show_int nsec

abbrev pub time : Time → TimeSpec
time (sec, none) = record { tv_sec = sec; tv_nsec = pos 0 }
time (sec, some nsec) = record { tv_sec = sec; tv_nsec = nsec }

atoi-show : (z : ℤ) → IsInt z → atoi (show_int z) ≡ z
atoi-show z (lo, hi) =
    rw (append-nil (show_int z)) at (atoi-show_int z [] (unfold starts_with_digit in refl) lo hi)

colon_free : (s : Text) → All IsPlain s → All (λ c. (c == b':') ≡ false) s
colon_free [] h = tt
colon_free (c ∷ s) (hc, hs) = (hc.1, colon_free s hs)

show_time-IsPlain : (t : Time) → All (λ c. (c == b':') ≡ false) (show_time t)
show_time-IsPlain (sec, none) = colon_free (show_int sec) (show_int-IsPlain sec)
show_time-IsPlain (sec, some nsec) =
    All-append _ (show_int sec) (b'/' ∷ show_int nsec)
      (colon_free (show_int sec) (show_int-IsPlain sec))
      (refl, colon_free (show_int nsec) (show_int-IsPlain nsec))

time_of-show_time : (t : Time) → IsTime t → time_of (show_time t) ≡ time t
unfolding time_of
time_of-show_time (sec, none) h =
    rw (cut-none b'/' IsPlain (λ c q. q.0) (show_int sec) (show_int-IsPlain sec), atoi-show sec h)
      refl
time_of-show_time (sec, some nsec) (h, g) =
    rw
      (
        cut_at b'/' IsPlain (λ c q. q.0) (show_int sec) (show_int nsec) (show_int-IsPlain sec) refl,
        atoi-show sec h,
        atoi-show nsec g,
      )
      refl

-- `value` or `value:interval`
abbrev pub show_itimerspec : (value : Time) (interval : Option Time) → Text
show_itimerspec value none = show_time value
show_itimerspec value (some interval) = show_time value ++ b':' ∷ show_time interval

abbrev pub interval_of : Option Time → TimeSpec
interval_of none = record { tv_sec = pos 0; tv_nsec = pos 0 }
interval_of (some t) = time t

abbrev pub IsTime? : Option Time → Type 0
IsTime? none = Unit
IsTime? (some t) = IsTime t

-- A specification printed in any of the documented forms, "sec", "sec/nsec", "sec:sec" and so on, with
-- components that fit an `int`, is read back by `itimerspecFromStr`; what is left out is read as 0.
pub itimerspec_from_str-show_itimerspec :
    (value : Time) (interval : Option Time)
    → IsTime value
    → IsTime? interval
    → itimerspec_from_str (show_itimerspec value interval)
      ≡ record { it_value = time value; it_interval = interval_of interval }
unfolding itimerspec_from_str
itimerspec_from_str-show_itimerspec value none h g =
    rw
      (
        cut-none b':' (λ c. (c == b':') ≡ false) (λ c q. q) (show_time value)
            (show_time-IsPlain value),
        time_of-show_time value h,
      )
      refl
itimerspec_from_str-show_itimerspec value (some interval) h g =
    rw
      (
        cut_at b':' (λ c. (c == b':') ≡ false) (λ c q. q) (show_time value) (show_time interval)
            (show_time-IsPlain value) refl,
        time_of-show_time value h,
        time_of-show_time interval g,
      )
      refl
