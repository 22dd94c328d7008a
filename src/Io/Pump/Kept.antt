-- ===== src/Io/Pump/Kept.antt =====
-- The transfer loop keeps what its two calls keep.
use my_linux_programming_int.Prelude.{
  ℕ, zero, suc, ◌≡◌, ◌≢◌, refl, ◌∙◌, inl, inr, Option, none, some, [], ◌∷◌, ◌==◌, length, Text,
  Bool-cases, List-cases, arith,
}
use my_linux_programming_int.Sys.{ok, Call, Proc, Reply-cases}
use my_linux_programming_int.Io.Pump.{End, pump}
use my_linux_programming_int.Io.Pump.Correct.{
  pump_read_error, pump_eof, pump_write_error, pump_partial, pump_round,
}

module _ {K E : Type 0} (read : ℕ → Call K Text) (write : Text → Call K ℕ) (part : K → E)
    (read_kept : (n : ℕ) (k : K) → part (read n k).1 ≡ part k)
    (write_kept : (bs : Text) (k : K) → part (write bs k).1 ≡ part k) where
  abbrev pub Kept : E → Option (End × Proc K) → Type 0
  Kept before none = Unit
  Kept before (some (e, p)) = part p.kernel ≡ before

  keeps :
      (fuel size : ℕ) (before : E) (p : Proc K)
      → part p.kernel ≡ before
      → Kept before (pump read write fuel size p)
  unfolding pump
  keeps zero size before p h = tt
  keeps (suc f) size before p h =
      let k1 = (read size p.kernel).1 in
      let h1 = read_kept size p.kernel ∙ h in
      elim (Reply-cases (read size p.kernel).0) [
        | inr (x, e) ↦ rw (pump_read_error read write f size p x e) h1
        | inl (bytes, e) ↦ elim (List-cases bytes) [
          | inl nil ↦
              let e' : (read size p.kernel).0 ≡ ok [] = ground arith in
              rw (pump_eof read write f size p e') h1
          | inr (b, bs, cons) ↦
              let e' : (read size p.kernel).0 ≡ ok (b ∷ bs) = ground arith in
              let k2 = (write (b ∷ bs) k1).1 in
              let h2 = write_kept (b ∷ bs) k1 ∙ h1 in
              elim (Reply-cases (write (b ∷ bs) k1).0) [
                | inr (x, w) ↦ rw (pump_write_error read write f size p b bs e' x w) h2
                | inl (m, w) ↦ elim (Bool-cases (m == length (b ∷ bs))) [
                  | inr other ↦
                      let d : m ≢ length (b ∷ bs) = ground arith in
                      rw (pump_partial read write f size p b bs e' m d w) h2
                  | inl same ↦
                      let all : (write (b ∷ bs) k1).0 ≡ ok (length (b ∷ bs)) = ground arith in
                      rw (pump_round read write f size p b bs e' all)
                        (keeps f size before (record p { kernel = k2 }) h2)
                ]
              ]
        ]
      ]

  pub pump-Kept : (fuel size : ℕ) (p : Proc K) → Kept (part p.kernel) (pump read write fuel size p)
  pump-Kept fuel size p = keeps fuel size (part p.kernel) p refl
