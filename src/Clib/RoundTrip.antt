-- ===== src/Clib/RoundTrip.antt =====
-- `strtol` and `atoi` read back what `%d` and `%ld` print.
use mathlib.Core.Logic.{ite, dite, if_pos, if_neg}
use mathlib.Core.WellFounded
use mathlib.Core.WellFounded.{Acc, Acc-prop}
use native.Mathlib.Decide.{dec_lt}
use my_linux_programming_int.Prelude.{
  ℕ, zero, suc, ◌+◌, ◌*◌, ◌/◌, ◌%◌, ◌≤◌, ◌<◌, ◌≡◌, ◌≢◌, append-nil, refl, ◌∙◌, Bool, true, false,
  [], ◌∷◌, ◌++◌, arith, ℤ, pos, negsuc, ◌≤ℤ◌, Text,
}
use my_linux_programming_int.Prelude.Order.{lt_wf}
use my_linux_programming_int.Clib.Decimal.{digits_acc, digits, show_nat, show_int}
use my_linux_programming_int.Clib.Strtol.{
  long_max, int_max, skip_spaces, scan_digits, read_sign, starts_with_digit, read_prefix, saturate,
  strtol, to_int, atoi,
}

-- any two proofs of `Acc` are equal
digits_acc_step :
    (n : ℕ) (w : Acc ◌<◌ n) (w' : Acc ◌<◌ (n / 10)) (out : Text)
    → digits_acc n w out ≡ ite (dec_lt 0 n) (digits_acc (n / 10) w' ((b'0' + n % 10) ∷ out)) out
unfolding digits_acc
digits_acc_step n (Acc.intro _ smaller) w' out = λ i.
    dite (dec_lt 0 n)
      (λ h.
        digits_acc (n / 10) (Acc-prop (smaller (n / 10) (omega arith)) w' i)
          ((b'0' + n % 10) ∷ out))
      (λ _. out)

pub digits_step :
    (n : ℕ) (out : Text)
    → digits n out ≡ ite (dec_lt 0 n) (digits (n / 10) ((b'0' + n % 10) ∷ out)) out
unfolding digits
digits_step n out = digits_acc_step n (lt_wf.apply n) (lt_wf.apply (n / 10)) out

digits-append : (n : ℕ) (out rest : Text) → digits n out ++ rest ≡ digits n (out ++ rest)
digits-append n =
    WellFounded.induction lt_wf
      {C = λ m. (out rest : Text) → digits m out ++ rest ≡ digits m (out ++ rest)} n
      λ m ih out rest. grind (arith, digits_step m out, digits_step m (out ++ rest), ih (m / 10))

-- one digit more
scan_digit :
    (n acc : ℕ) (out : Text)
    → scan_digits 10 acc ((b'0' + n % 10) ∷ out) ≡ scan_digits 10 (acc * 10 + n % 10) out
unfolding scan_digits
scan_digit n acc out = ground arith

scan_digits-digits : (n : ℕ) (out : Text) → scan_digits 10 0 (digits n out) ≡ scan_digits 10 n out
scan_digits-digits n =
    WellFounded.induction lt_wf
      {C = λ m. (out : Text) → scan_digits 10 0 (digits m out) ≡ scan_digits 10 m out} n
      λ m ih out. grind (arith, digits_step m out, scan_digit m (m / 10) out, ih (m / 10))

-- a text whose first byte is a decimal digit
record Leads (s : Text) : Type 0 where
  first : ℕ
  others : Text
  shape : s ≡ first ∷ others
  low : b'0' ≤ first
  high : first ≤ b'9'

digits-Leads_of : (n : ℕ) (out : Text) → Leads out → Leads (digits n out)
digits-Leads_of n =
    WellFounded.induction lt_wf {C = λ m. (out : Text) → Leads out → Leads (digits m out)} n
      λ m ih out l. elim (dec_lt 0 m) [
        | yes p ↦
            rw (digits_step m out, if_pos _ p)
              (ih (m / 10) (omega arith) _ (record {
                first = b'0' + m % 10;
                others = out;
                shape = refl;
                low = omega arith;
                high = omega arith;
              }))
        | no p ↦ rw (digits_step m out, if_neg _ p) l
      ]

digits-Leads : (n : ℕ) (out : Text) → 0 < n → Leads (digits n out)
digits-Leads n out p =
    rw (digits_step n out, if_pos _ p)
      (digits-Leads_of (n / 10) _ (record {
        first = b'0' + n % 10;
        others = out;
        shape = refl;
        low = omega arith;
        high = omega arith;
      }))

-- the text of a positive number, with what follows it
show_nat-suc : (n : ℕ) (rest : Text) → show_nat (suc n) ++ rest ≡ digits (suc n) rest
unfolding show_nat
show_nat-suc n rest = ground (arith, digits-append (suc n) [] rest)

show_nat-Leads : (n : ℕ) (rest : Text) → Leads (show_nat n ++ rest)
show_nat-Leads zero rest =
    unfold show_nat in
    record { first = b'0'; others = rest; shape = refl; low = omega arith; high = omega arith }
show_nat-Leads (suc n) rest = rw (show_nat-suc n rest) (digits-Leads (suc n) rest (omega arith))

scan_digits-show_nat :
    (n : ℕ) (rest : Text) → scan_digits 10 0 (show_nat n ++ rest) ≡ scan_digits 10 n rest
scan_digits-show_nat zero rest = unfold show_nat scan_digits in refl
scan_digits-show_nat (suc n) rest = rw (show_nat-suc n rest) (scan_digits-digits (suc n) rest)

scan_digits_stop :
    (n : ℕ) (rest : Text) → starts_with_digit 10 rest ≡ false → scan_digits 10 n rest ≡ (n, rest)
unfolding scan_digits starts_with_digit
scan_digits_stop n [] h = refl
scan_digits_stop n (c ∷ s) h = rw h

pub show_int-ne_nil : (z : ℤ) → show_int z ≢ []
unfolding show_int
show_int-ne_nil (pos n) e = let l = show_nat-Leads n [] in cc (l.shape, append-nil (show_nat n), e)
show_int-ne_nil (negsuc n) e = cc

abbrev pub is_negative : ℤ → Bool
is_negative (pos n) = false
is_negative (negsuc n) = true

abbrev pub magnitude : ℤ → ℕ
magnitude (pos n) = n
magnitude (negsuc n) = n + 1

sign-Leads :
    (s : Text) → Leads s → read_sign (skip_spaces s) ≡ record { negative = false; tail = s }
unfolding read_sign skip_spaces
sign-Leads s l = rw l.shape (ground (arith, l.low, l.high))

sign-show_int :
    (z : ℤ) (rest : Text)
    → read_sign (skip_spaces (show_int z ++ rest))
      ≡ record { negative = is_negative z; tail = show_nat (magnitude z) ++ rest }
unfolding show_int
sign-show_int (pos n) rest = sign-Leads _ (show_nat-Leads n rest)
sign-show_int (negsuc n) rest = unfold read_sign skip_spaces in refl

digit-Leads : (s : Text) → Leads s → starts_with_digit 10 s ≡ true
unfolding starts_with_digit
digit-Leads s l = rw l.shape (ground (arith, l.low, l.high))

pub saturate-fits :
    (z : ℤ) (rest : Text)
    → negsuc long_max ≤ℤ z
    → z ≤ℤ pos long_max
    → saturate (is_negative z) (magnitude z) rest
      ≡ record { res = z; endptr = rest; erange = false }
unfolding saturate
saturate-fits (pos n) rest lo hi = ground arith
saturate-fits (negsuc n) rest lo hi = ground arith

to_int-fits : (z : ℤ) → negsuc int_max ≤ℤ z → z ≤ℤ pos int_max → to_int z ≡ z
unfolding to_int
to_int-fits (pos n) lo hi = ground arith
to_int-fits (negsuc n) lo hi = ground arith

-- `strtol` in base ten reads a printed integer back, up to the first byte that is no digit.
pub strtol-show_int :
    (z : ℤ) (rest : Text)
    → starts_with_digit 10 rest ≡ false
    → strtol (show_int z ++ rest) 10 ≡ saturate (is_negative z) (magnitude z) rest
unfolding strtol read_prefix
strtol-show_int z rest h =
    let w = show_nat (magnitude z) ++ rest in
    rw (sign-show_int z rest) (
      rw (digit-Leads w (show_nat-Leads (magnitude z) rest)) (
        rw (scan_digits-show_nat (magnitude z) rest)
          (rw (scan_digits_stop (magnitude z) rest h) refl)))

-- The value and the rest, where the integer fits a `long`.
pub strtol-show_int_fits :
    (z : ℤ) (rest : Text)
    → starts_with_digit 10 rest ≡ false
    → negsuc long_max ≤ℤ z
    → z ≤ℤ pos long_max
    → strtol (show_int z ++ rest) 10 ≡ record { res = z; endptr = rest; erange = false }
strtol-show_int_fits z rest h lo hi = strtol-show_int z rest h ∙ saturate-fits z rest lo hi

-- `atoi` reads a printed `int` back.
pub atoi-show_int :
    (z : ℤ) (rest : Text)
    → starts_with_digit 10 rest ≡ false
    → negsuc int_max ≤ℤ z
    → z ≤ℤ pos int_max
    → atoi (show_int z ++ rest) ≡ z
unfolding atoi
atoi-show_int z rest h lo hi =
    rw (strtol-show_int_fits z rest h (omega arith) (omega arith)) (to_int-fits z lo hi)
