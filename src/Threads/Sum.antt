-- ===== src/Threads/Sum.antt =====
-- Weights summed over the threads of a program, and the thread that moves.
use native.Mathlib.Decide.{dec_lt}
use my_linux_programming_int.Prelude.{ℕ, ◌+◌, ◌<◌, ◌≡◌, refl, ap, List, [], ◌∷◌, ◌++◌, arith}

module _ {A : Type 0} where
  unfoldable pub total : (A → ℕ) → List A → ℕ
  total w [] = 0
  total w (p ∷ ps) = w p + total w ps

  total-append : (w : A → ℕ) (ps qs : List A) → total w (ps ++ qs) ≡ total w ps + total w qs
  unfolding total
  total-append w [] qs = omega arith
  total-append w (p ∷ ps) qs = omega (arith, total-append w ps qs)

  -- the thread that moves, and the others
  pub total-focus :
      (w : A → ℕ) (before later : List A) (p : A)
      → total w (before ++ p ∷ later) ≡ w p + (total w before + total w later)
  unfolding total
  total-focus w before later p = omega (arith, total-append w before (p ∷ later))

  -- a thread at which a weight is positive
  pub record Found (w : A → ℕ) (ps : List A) : Type 0 where
    pub before : List A
    pub it : A
    pub later : List A
    pub place : ps ≡ before ++ it ∷ later
    pub weighs : 0 < w it

  pub find : (w : A → ℕ) (ps : List A) → 0 < total w ps → Found w ps
  unfolding total
  find w [] h = absurd (omega arith)
  find w (p ∷ ps) h = elim (dec_lt 0 (w p)) [
    | yes here_ ↦ record { before = []; it = p; later = ps; place = refl; weighs = here_ }
    | no not_here ↦
        let f = find w ps (omega arith) in
        record {
          before = p ∷ f.before;
          it = f.it;
          later = f.later;
          place = ap (λ qs. p ∷ qs) f.place;
          weighs = f.weighs;
        }
  ]
