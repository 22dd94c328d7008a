-- ===== src/Clib/Digits.antt =====
-- The bytes of a decimal print.
use mathlib.Core.Logic.{if_pos, if_neg}
use mathlib.Core.WellFounded
use native.Mathlib.Decide.{dec_lt}
use my_linux_programming_int.Prelude.{ℕ, ◌+◌, ◌%◌, ◌/◌, [], ◌∷◌, ℤ, pos, negsuc, Text, All, arith}
use my_linux_programming_int.Prelude.Order.{lt_wf}
use my_linux_programming_int.Clib.Decimal.{digits, show_nat, show_int}
use my_linux_programming_int.Clib.RoundTrip.{digits_step}

-- what holds of the digits and of the minus sign
module _ (P : ℕ → Type 0) (digit : (n : ℕ) → P (b'0' + n % 10)) (minus : P b'-') where
  digits-All : (n : ℕ) (out : Text) → All P out → All P (digits n out)
  digits-All n =
      WellFounded.induction lt_wf {C = λ m. (out : Text) → All P out → All P (digits m out)} n
        λ m ih out h. elim (dec_lt 0 m) [
          | yes p ↦
              rw (digits_step m out, if_pos _ p)
                (ih (m / 10) (omega arith) ((b'0' + m % 10) ∷ out) (digit m, h))
          | no p ↦ rw (digits_step m out, if_neg _ p) h
        ]

  show_nat-All : (n : ℕ) → All P (show_nat n)
  unfolding show_nat
  show_nat-All n = ground (arith, digits-All n [] tt, digit 0)

  pub show_int-All : (z : ℤ) → All P (show_int z)
  unfolding show_int
  show_int-All (pos n) = show_nat-All n
  show_int-All (negsuc n) = (minus, show_nat-All (n + 1))
