-- ===== src/Program/After.antt =====
-- What a program leaves: a condition on the value and the kernel of a program that returns, and one
-- on the end and the kernel of a program that ends its process. It does not run out of fuel.
use my_linux_programming_int.Prelude.{ℕ, ◌≡◌, inl, inr, Option, none, some}
use my_linux_programming_int.Sys.{Call, Proc, ok, fail, Reply-cases}
use my_linux_programming_int.Program.{
  Exit, Result, value, ended, out_of_fuel, Prog, bind_result, need, attempt,
}

abbrev pub After :
    {K A : Type 0} (Returns : A → K → Type 0) (Ends : Exit → K → Type 0)
    → Result A × Proc K
    → Type 0
After Returns Ends (value a, p) = Returns a p.kernel
After Returns Ends (ended e, p) = Ends e p.kernel
After Returns Ends (out_of_fuel, p) = ⊥

module _ {K A : Type 0} (Ends : Exit → K → Type 0) where
  pub After-bind :
      {B : Type 0} (Then : A → K → Type 0) (Returns : B → K → Type 0) (f : A → Prog K B)
      (r : Result A × Proc K)
      → After Then Ends r
      → ((a : A) (p : Proc K) → Then a p.kernel → After Returns Ends (f a p))
      → After Returns Ends (bind_result f r)
  After-bind Then Returns f (value a, p) h rest = rest a p h
  After-bind Then Returns f (ended e, p) h rest = h
  After-bind Then Returns f (out_of_fuel, p) h rest = elim h [ ]

  pub After-need :
      (Returns : A → K → Type 0) (f : Call K A) (e : Exit) (p : Proc K)
      → ((a : A) → (f p.kernel).0 ≡ ok a → Returns a (f p.kernel).1)
      → ((x : ℕ) → (f p.kernel).0 ≡ fail x → Ends e (f p.kernel).1)
      → After Returns Ends (need f e p)
  After-need Returns f e p returns ends = elim (Reply-cases (f p.kernel).0) [
    | inl (a, c) ↦ rw (c, After) (returns a c)
    | inr (x, c) ↦ rw (c, After) (ends x c)
  ]

  pub After-attempt :
      (Returns : Option A → K → Type 0) (f : Call K A) (p : Proc K)
      → ((a : A) → (f p.kernel).0 ≡ ok a → Returns (some a) (f p.kernel).1)
      → ((x : ℕ) → (f p.kernel).0 ≡ fail x → Returns none (f p.kernel).1)
      → After Returns Ends (attempt f p)
  After-attempt Returns f p returns fails = elim (Reply-cases (f p.kernel).0) [
    | inl (a, c) ↦ rw (c, After) (returns a c)
    | inr (x, c) ↦ rw (c, After) (fails x c)
  ]

pub After-map :
    {K A : Type 0} (Ends : Exit → K → Type 0) (R S : A → K → Type 0) (r : Result A × Proc K)
    → After R Ends r
    → ((a : A) (k : K) → R a k → S a k)
    → After S Ends r
After-map Ends R S (value a, p) h weaken = weaken a p.kernel h
After-map Ends R S (ended e, p) h weaken = h
After-map Ends R S (out_of_fuel, p) h weaken = h
