-- ===== src/Prelude/Cstring.antt =====
-- C strings as lists of byte values (the bytes before the terminating NUL), and predicates on lists.
use my_linux_programming_int.Prelude.Tests.{◌==◌, if◌then◌else◌}
use mathlib.Core.Bool.{Bool, true, false, ◌&&◌}
use Prim.Native.Nat.{ℕ}
use Prim.Native.Char.{code}
use Prim.Native.String.{String}
use mathlib.Core.List.{List, [], ◌∷◌, ◌++◌}

abbrev pub Text : Type 0
Text = List ℕ

-- `strcmp(s, t) == 0`
abbrev pub text_eq : Text → Text → Bool
text_eq [] [] = true
text_eq [] (y ∷ ys) = false
text_eq (x ∷ xs) [] = false
text_eq (x ∷ xs) (y ∷ ys) = x == y && text_eq xs ys

-- the string in a buffer: the bytes before the first NUL
abbrev pub c_string : Text → Text
c_string [] = []
c_string (c ∷ s) = let rest = c_string s in if c == 0 then [] else c ∷ rest

-- The code points of a literal: its bytes, since every literal of the code used here is ASCII.
abbrev pub codes : String → Text
codes String.[] = []
codes (String.◌∷◌ c s) = code c ∷ codes s

module _ {ℓ κ} {A : Type ℓ} (P : A → Type κ) where
  abbrev pub All : List A → Type κ
  All [] = Unit
  All (x ∷ xs) = P x × All xs

  pub All-append : (xs ys : List A) → All xs → All ys → All (xs ++ ys)
  All-append [] ys _ hy = hy
  All-append (x ∷ xs) ys (px, hx) hy = (px, All-append xs ys hx hy)
