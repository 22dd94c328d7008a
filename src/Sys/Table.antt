-- ===== src/Sys/Table.antt =====
-- Tables from descriptors: what each refers to, for the models that follow the numbers.
use my_linux_programming_int.Prelude.{
  ℕ, ◌≡◌, refl, sym, ap, ◌∙◌, inl, inr, Bool-cases, ◌==◌, if◌then◌else◌, arith,
}

module _ {A : Type 0} where
  abbrev pub set : (fd : ℕ) → A → (ℕ → A) → ℕ → A
  set fd v t n = if n == fd then v else t n

  abbrev pub Agree : (t u : ℕ → A) → Type 0
  Agree t u = (n : ℕ) → t n ≡ u n

  pub set-Agree : (fd : ℕ) (v : A) (t u : ℕ → A) → Agree t u → Agree (set fd v t) (set fd v u)
  set-Agree fd v t u h n = ground (arith, h n)

  pub set-same : (fd : ℕ) (v : A) (t : ℕ → A) → set fd v t fd ≡ v
  set-same fd v t = ground arith

  -- a descriptor that is free, taken and given back
  pub set-undo :
      (fd : ℕ) (v free : A) (t : ℕ → A) → t fd ≡ free → Agree (set fd free (set fd v t)) t
  set-undo fd v free t e n = elim (Bool-cases (n == fd)) [
    | inl same ↦ rw same (sym e ∙ ap t (ground arith))
    | inr different ↦ rw different refl
  ]
