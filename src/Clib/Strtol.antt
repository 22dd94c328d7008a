-- ===== src/Clib/Strtol.antt =====
-- `strtol` and `atoi` of <stdlib.h>, with a 64-bit `long` and a 32-bit `int`.
use my_linux_programming_int.Prelude.{
  ℕ, ◌+◌, ◌-◌, ◌*◌, ◌%◌, ◌^◌, ◌≡◌, refl, Bool, true, false, ◌&&◌, ◌||◌, Option, none, some, [], ◌∷◌,
  ltb, leb, ◌==◌, if◌then◌else◌, ℤ, pos, negsuc, neg_ℕ, Text, codes,
}

abbrev pub long_max : ℕ
long_max = 2 ^ 63 - 1

abbrev pub int_max : ℕ
int_max = 2 ^ 31 - 1

-- `isspace` in the "C" locale: the blank, and 9 to 13
abbrev pub is_space : ℕ → Bool
is_space c = c == b' ' || (leb 9 c && leb c 13)

unfoldable pub skip_spaces : Text → Text
skip_spaces [] = []
skip_spaces (c ∷ s) = let rest = skip_spaces s in if is_space c then rest else c ∷ s

-- the value of a digit or letter, 99 for any other byte
abbrev pub digit_value : ℕ → ℕ
digit_value c =
    if leb b'0' c && leb c b'9'
    then c - b'0'
    else if leb b'a' c && leb c b'z'
    then c - 87
    else if leb b'A' c && leb c b'Z'
    then c - 55
    else 99

abbrev pub is_digit : (base : ℕ) → ℕ → Bool
is_digit base c = ltb (digit_value c) base

-- The digits at the front of a text: their value behind `acc`, and the text after them.
unfoldable pub scan_digits : (base acc : ℕ) → Text → ℕ × Text
scan_digits base acc [] = (acc, [])
scan_digits base acc (c ∷ s) =
    let rest = scan_digits base (acc * base + digit_value c) s in
    if is_digit base c then rest else (acc, c ∷ s)

pub record Sign : Type 0 where
  pub negative : Bool
  pub tail : Text

unfoldable pub read_sign : Text → Sign
read_sign [] = record { negative = false; tail = [] }
read_sign (c ∷ s) =
    if c == b'-'
    then record { negative = true; tail = s }
    else if c == b'+'
    then record { negative = false; tail = s }
    else record { negative = false; tail = c ∷ s }

unfoldable pub starts_with_digit : ℕ → Text → Bool
starts_with_digit base [] = false
starts_with_digit base (c ∷ s) = is_digit base c

-- "0x" or "0X", followed by a hexadecimal digit
unfoldable pub hex_tail : Text → Option Text
unfolding starts_with_digit
hex_tail [] = none
hex_tail (a ∷ []) = none
hex_tail (a ∷ x ∷ s) =
    if a == b'0' && (x == b'x' || x == b'X') && starts_with_digit 16 s then some s else none

abbrev leading_zero : Text → Bool
leading_zero [] = false
leading_zero (c ∷ s) = c == b'0'

-- The base that is used, and the text from the first digit on.
unfoldable pub read_prefix : ℕ → Text → ℕ × Text
read_prefix base s =
    if base == 16 || base == 0
    then elim (hex_tail s) [
      | some t ↦ (16, t)
      | none ↦ ((if base == 0 then (if leading_zero s then 8 else 10) else base), s)
    ]
    else (base, s)

pub record Strtol : Type 0 where
  pub res : ℤ
  pub endptr : Text  -- the text that `endptr` points to
  pub erange : Bool  -- `errno` is set to `ERANGE`

-- Values outside `long` saturate.
unfoldable pub saturate : Bool → ℕ → Text → Strtol
saturate false n rest =
    if ltb long_max n
    then record { res = pos long_max; endptr = rest; erange = true }
    else record { res = pos n; endptr = rest; erange = false }
saturate true n rest =
    if ltb (long_max + 1) n
    then record { res = negsuc long_max; endptr = rest; erange = true }
    else record { res = neg_ℕ n; endptr = rest; erange = false }

unfoldable pub strtol : Text → (base : ℕ) → Strtol
strtol arg base =
    let sign = read_sign (skip_spaces arg) in
    let (b, s) = read_prefix base sign.tail in
    if starts_with_digit b s
    then (let (n, rest) = scan_digits b 0 s in saturate sign.negative n rest)
    else record { res = pos 0; endptr = arg; erange = false }

-- A `long` cut down to 32 bits and read as an `int`.
abbrev pub low_32 : ℤ → ℕ
low_32 (pos n) = n % 2 ^ 32
low_32 (negsuc n) = 2 ^ 32 - 1 - n % 2 ^ 32

unfoldable pub to_int : ℤ → ℤ
to_int z = if ltb (low_32 z) (2 ^ 31) then pos (low_32 z) else negsuc (2 ^ 32 - 1 - low_32 z)

-- `atoi`, as `(int) strtol(s, NULL, 10)`
unfoldable pub atoi : Text → ℤ
atoi s = to_int (strtol s 10).res

-- Its unfolding line is all that a run of `strtol` or `atoi` computes with.
unfoldable pub strtol_runs : Text → ℕ → Strtol
unfolding skip_spaces scan_digits read_sign starts_with_digit hex_tail read_prefix saturate strtol
    to_int atoi
strtol_runs = strtol

strtol_decimal :
    strtol (codes "  -42abc") 10 ≡ record { res = negsuc 41; endptr = codes "abc"; erange = false }
unfolding strtol_runs
strtol_decimal = refl

strtol_hex : strtol (codes "0x1F") 0 ≡ record { res = pos 31; endptr = []; erange = false }
unfolding strtol_runs
strtol_hex = refl

strtol_no_hex_digits :
    strtol (codes "0xg") 0 ≡ record { res = pos 0; endptr = codes "xg"; erange = false }
unfolding strtol_runs
strtol_no_hex_digits = refl

strtol_saturates :
    strtol (codes "9223372036854775808") 10
    ≡ record { res = pos long_max; endptr = []; erange = true }
unfolding strtol_runs
strtol_saturates = refl

atoi_wraps : (atoi (codes "4294967295") ≡ negsuc 0) × (atoi (codes "-2147483648") ≡ negsuc int_max)
unfolding strtol_runs
atoi_wraps = (refl, refl)
