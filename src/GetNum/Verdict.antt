-- ===== src/GetNum/Verdict.antt =====
-- lib/get_num.c: what `getLong` and `getInt` do with the decimal print of any integer, refusals and
-- their messages included.
use my_linux_programming_int.Prelude.{
  ℕ, ◌≡◌, refl, ◌≢◌, Bool, true, false, ◌&&◌, ◌||◌, Option, none, some, [], ◌∷◌, arith,
  if◌then◌else◌, ℤ, pos, negsuc, ltb_ℤ, Text, codes, append-nil, Bool-cases, inl, inr,
}
use my_linux_programming_int.Clib.Decimal.{show_int}
use my_linux_programming_int.Clib.RoundTrip.{
  strtol-show_int, show_int-ne_nil, is_negative, magnitude, saturate-fits,
}
use my_linux_programming_int.Clib.Strtol.{
  long_max, int_max, strtol, saturate, starts_with_digit, Strtol,
}
use my_linux_programming_int.GetNum.{
  has_flag, gn_nonneg, gn_gt_0, gn_any_base, gn_base_8, gn_base_16, Checked, returned, gn_fail,
  base_of, check_num, get_num, get_long, get_int,
}

-- no flag asks for another base than ten
abbrev pub IsDecimal : ℕ → Type 0
IsDecimal flags =
    (has_flag flags gn_any_base ≡ false)
    × (has_flag flags gn_base_8 ≡ false)
    × (has_flag flags gn_base_16 ≡ false)

-- The complaint about the sign, if any.
abbrev pub sign_complaint : (flags : ℕ) → ℤ → Option Text
sign_complaint flags z =
    if has_flag flags gn_nonneg && ltb_ℤ z (pos 0)
    then some (codes "negative value not allowed")
    else if has_flag flags gn_gt_0 && ltb_ℤ z (pos 1)
    then some (codes "value must be > 0")
    else none

abbrev pub off_long : ℤ → Bool
off_long z = ltb_ℤ (pos long_max) z || ltb_ℤ z (negsuc long_max)

-- The message that a value is refused with, if any: the first that applies.
abbrev pub complaint : (flags : ℕ) → ℤ → Option Text
complaint flags z = if off_long z then some (codes "strtol() failed") else sign_complaint flags z

abbrev pub int_complaint : (flags : ℕ) → ℤ → Option Text
int_complaint flags z = elim (complaint flags z) [
  | some m ↦ some m
  | none ↦
      (if ltb_ℤ (pos int_max) z || ltb_ℤ z (negsuc int_max)
        then some (codes "integer out of range")
        else none)
]

-- the outcome that goes with a complaint
abbrev pub verdict : (fname arg : Text) → (name : Option Text) → ℤ → Option Text → Checked ℤ
verdict fname arg name z none = returned z
verdict fname arg name z (some msg) = gn_fail fname msg (some arg) name

base_of-IsDecimal : (flags : ℕ) → IsDecimal flags → base_of flags ≡ 10
unfolding base_of
base_of-IsDecimal flags d = ground arith

check_num_fits :
    (fname arg : Text) (flags : ℕ) (name : Option Text) (z : ℤ)
    → check_num fname arg flags name (record { res = z; endptr = []; erange = false })
      ≡ verdict fname arg name z (sign_complaint flags z)
unfolding check_num gn_fail
check_num_fits fname arg flags name z = ground arith

check_num_off :
    (fname arg : Text) (flags : ℕ) (name : Option Text) (r : Strtol)
    → r.erange ≡ true
    → check_num fname arg flags name r ≡ gn_fail fname (codes "strtol() failed") (some arg) name
unfolding check_num gn_fail
check_num_off fname arg flags name r h = rw h

erange_of_off :
    (z : ℤ) → off_long z ≡ true → (saturate (is_negative z) (magnitude z) []).erange ≡ true
unfolding saturate
erange_of_off (pos n) h = ground arith
erange_of_off (negsuc n) h = ground arith

check_num-saturate :
    (fname arg : Text) (flags : ℕ) (name : Option Text) (z : ℤ)
    → check_num fname arg flags name (saturate (is_negative z) (magnitude z) [])
      ≡ verdict fname arg name z (complaint flags z)
check_num-saturate fname arg flags name z = elim (Bool-cases (off_long z)) [
  | inl off ↦ rw off (check_num_off fname arg flags name _ (erange_of_off z off))
  | inr on ↦
      rw (on, saturate-fits z [] (ground arith) (ground arith))
        (check_num_fits fname arg flags name z)
]

get_num-cons :
    (fname : Text) (arg : Text) (flags : ℕ) (name : Option Text)
    → arg ≢ []
    → get_num fname (some arg) flags name
      ≡ check_num fname arg flags name (strtol arg (base_of flags))
unfolding get_num
get_num-cons fname [] flags name h = absurd (h refl)
get_num-cons fname (c ∷ s) flags name h = refl

strtol-show : (z : ℤ) → strtol (show_int z) 10 ≡ saturate (is_negative z) (magnitude z) []
strtol-show z =
    rw (append-nil (show_int z)) at (strtol-show_int z [] (unfold starts_with_digit in refl))

-- `getNum` on a printed integer
get_num-show_int :
    (fname : Text) (z : ℤ) (flags : ℕ) (name : Option Text)
    → IsDecimal flags
    → get_num fname (some (show_int z)) flags name
      ≡ verdict fname (show_int z) name z (complaint flags z)
get_num-show_int fname z flags name d =
    rw
      (
        get_num-cons fname (show_int z) flags name (show_int-ne_nil z),
        base_of-IsDecimal flags d,
        strtol-show z,
      )
      (check_num-saturate fname (show_int z) flags name z)

-- Without a base flag, `getLong` applied to the decimal print of any integer returns that integer,
-- unless it does not fit a `long` or has a sign that `flags` forbids; then the process ends with the
-- first message that applies.
get_long-show_int :
    (z : ℤ) (flags : ℕ) (name : Option Text)
    → IsDecimal flags
    → get_long (some (show_int z)) flags name
      ≡ verdict (codes "getLong") (show_int z) name z (complaint flags z)
unfolding get_long
get_long-show_int z flags name d = get_num-show_int (codes "getLong") z flags name d

-- Without a base flag, `getInt` applied to the decimal print of any integer returns that integer,
-- unless it does not fit a `long`, has a sign that `flags` forbids, or does not fit an `int`; then
-- the process ends with the first message that applies, in this order.
pub get_int-show_int :
    (z : ℤ) (flags : ℕ) (name : Option Text)
    → IsDecimal flags
    → get_int (some (show_int z)) flags name
      ≡ verdict (codes "getInt") (show_int z) name z (int_complaint flags z)
unfolding get_int
get_int-show_int z flags name d =
    rw (get_num-show_int (codes "getInt") z flags name d) (unfold gn_fail in ground arith)
