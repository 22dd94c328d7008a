-- ===== src/Clib/Decimal.antt =====
-- `%d` and `%ld` of `printf`, and that `strtol` in base ten reads them back.
use mathlib.Core.Logic.{dite}
use mathlib.Core.WellFounded.{Acc}
use native.Mathlib.Decide.{dec_lt}
use my_linux_programming_int.Prelude.{
  ℕ, ◌+◌, ◌/◌, ◌%◌, ◌<◌, ◌≡◌, refl, [], ◌∷◌, arith, ◌==◌, if◌then◌else◌, ℤ, pos, negsuc, Text,
  codes,
}
use my_linux_programming_int.Prelude.Order.{lt_wf}

-- the digits of `n` in front of `out`, the last digit first
unfoldable pub digits_acc : (n : ℕ) → Acc ◌<◌ n → Text → Text
digits_acc n (Acc.intro _ smaller) out =
    dite (dec_lt 0 n)
      (λ h. digits_acc (n / 10) (smaller (n / 10) (omega arith)) ((b'0' + n % 10) ∷ out)) (λ _. out)

unfoldable pub digits : ℕ → Text → Text
unfolding digits_acc lt_wf dec_lt
digits n out = digits_acc n (lt_wf.apply n) out

unfoldable pub show_nat : ℕ → Text
show_nat n = if n == 0 then b'0' ∷ [] else digits n []

unfoldable pub show_int : ℤ → Text
show_int (pos n) = show_nat n
show_int (negsuc n) = b'-' ∷ show_nat (n + 1)

show_int_runs : (show_int (negsuc 1233) ≡ codes "-1234") × (show_int (pos 0) ≡ codes "0")
unfolding show_int show_nat digits
show_int_runs = (refl, refl)
