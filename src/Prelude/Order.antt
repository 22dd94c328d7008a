-- ===== src/Prelude/Order.antt =====
-- `<` on the native numbers is well founded.
use mathlib.Core.WellFounded.{Acc, WellFounded}
use Prim.Native.Nat.{ℕ, zero, suc, ◌<◌}
use native.Mathlib.Omega.{arith}

Acc-below : (k n : ℕ) → n < k → Acc ◌<◌ n
Acc-below zero n h = elim h [ ]
Acc-below (suc k) n h = Acc.intro n (λ m hm. Acc-below k m (omega arith))

unfoldable pub lt_wf : WellFounded ◌<◌
unfolding Acc-below
lt_wf = record { apply = λ n. Acc-below (suc n) n (omega arith) }

-- A relation from states of which something holds, that keeps it and lessens a measure, ends.
module _ {S : Type 0} (Next : S → S → Type 0) (Good : S → Type 0) (measure : S → ℕ)
    (less : (s t : S) → Good s → Next s t → Good t × (measure t < measure s)) where
  Acc-within : (k : ℕ) (s : S) → measure s < k → Good s → Acc (λ t u. Next u t) s
  Acc-within zero s h g = elim h [ ]
  Acc-within (suc k) s h g =
      Acc.intro s (λ t n. let (g', d) = less s t g n in Acc-within k t (omega arith) g')

  pub Acc-measure : (s : S) → Good s → Acc (λ t u. Next u t) s
  Acc-measure s g = Acc-within (suc (measure s)) s (omega arith) g
