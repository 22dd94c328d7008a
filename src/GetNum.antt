-- ===== src/GetNum.antt =====
-- lib/get_num.c and lib/get_num.h: numeric command-line arguments.
pub mod Accepts
pub mod Verdict
mod Tests
use my_linux_programming_int.Prelude.{
  ℕ, ◌/◌, ◌%◌, ◌≡◌, Bool, true, false, ◌&&◌, ◌||◌, Option, none, some, [], ◌∷◌, ◌++◌, ltb, ◌==◌,
  if◌then◌else◌, ℤ, pos, negsuc, ltb_ℤ, Text, codes,
}
use my_linux_programming_int.Clib.Strtol.{int_max, Strtol, strtol}

-- The bits of `flags`; the header writes them in octal.
abbrev pub gn_nonneg : ℕ
gn_nonneg = 0o1

abbrev pub gn_gt_0 : ℕ
gn_gt_0 = 0o2

abbrev pub gn_any_base : ℕ
gn_any_base = 0o100

abbrev pub gn_base_8 : ℕ
gn_base_8 = 0o200

abbrev pub gn_base_16 : ℕ
gn_base_16 = 0o400

-- `flags & bit`, for a `bit` that is a power of two
abbrev pub has_flag : (flags bit : ℕ) → Bool
has_flag flags bit = flags / bit % 2 == 1

-- A library call either returns or ends the process with a text on `stderr`.
pub data Checked (A : Type 0) : Type 0 where
  returned : A → Checked A
  exited : (status : ℕ) (stderr : Text) → Checked A

abbrev pub ◌>>=◌ : {A B : Type 0} → Checked A → (A → Checked B) → Checked B
returned a >>= f = f a
exited n t >>= f = exited n t

infixl 5 ◌>>=◌ ◌>>◌
abbrev pub ◌>>◌ : {B : Type 0} → Checked (Unit {0}) → Checked B → Checked B
m >> k = m >>= λ _. k

abbrev in_clause : Option Text → Text
in_clause none = []
in_clause (some name) = codes " (in " ++ (name ++ codes ")")

abbrev offending : Option Text → Text
offending none = []
offending (some []) = []
offending (some (c ∷ s)) = codes "        offending text: " ++ ((c ∷ s) ++ codes "\n")

-- `gnFail`; `exit(EXIT_FAILURE)` is status 1
pub gn_fail : {A : Type 0} → (fname msg : Text) → (arg name : Option Text) → Checked A
gn_fail fname msg arg name = exited 1 (
    fname
    ++ (codes " error"
        ++ (in_clause name ++ (codes ": " ++ (msg ++ (codes "\n" ++ offending arg))))))

-- `if (test) gnFail(...)`
abbrev fail_if : Bool → (fname msg : Text) → (arg name : Option Text) → Checked (Unit {0})
fail_if true fname msg arg name = gn_fail fname msg arg name
fail_if false fname msg arg name = returned tt

pub base_of : ℕ → ℕ
base_of flags =
    if has_flag flags gn_any_base
    then 0
    else if has_flag flags gn_base_8
    then 8
    else if has_flag flags gn_base_16
    then 16
    else 10

abbrev is_nil : Text → Bool
is_nil [] = true
is_nil (c ∷ s) = false

-- The checks of `getNum` behind the call of `strtol`, in the order of the source.
pub check_num :
    (fname : Text) → (arg : Text) → (flags : ℕ) → (name : Option Text) → Strtol → Checked ℤ
check_num fname arg flags name r = do
  fail_if r.erange fname (codes "strtol() failed") (some arg) name
  fail_if (if is_nil r.endptr then false else true) fname (codes "nonnumeric characters") (some arg)
      name
  fail_if (has_flag flags gn_nonneg && ltb_ℤ r.res (pos 0)) fname
      (codes "negative value not allowed") (some arg) name
  fail_if (has_flag flags gn_gt_0 && ltb_ℤ r.res (pos 1)) fname (codes "value must be > 0")
      (some arg) name
  returned r.res

-- `getNum`; a null pointer is `none`
pub get_num : (fname : Text) → (arg : Option Text) → (flags : ℕ) → (name : Option Text) → Checked ℤ
get_num fname none flags name = gn_fail fname (codes "null or empty string") none name
get_num fname (some []) flags name = gn_fail fname (codes "null or empty string") (some []) name
get_num fname (some (c ∷ s)) flags name =
    check_num fname (c ∷ s) flags name (strtol (c ∷ s) (base_of flags))

pub get_long : (arg : Option Text) → (flags : ℕ) → (name : Option Text) → Checked ℤ
get_long arg flags name = get_num (codes "getLong") arg flags name

-- The result is returned as an `int`, into which it fits.
pub get_int : (arg : Option Text) → (flags : ℕ) → (name : Option Text) → Checked ℤ
get_int arg flags name = do
  res ← get_num (codes "getInt") arg flags name
  fail_if (ltb_ℤ (pos int_max) res || ltb_ℤ res (negsuc int_max)) (codes "getInt")
      (codes "integer out of range") arg name
  returned res
