-- ===== src/GetNum/Accepts.antt =====
-- lib/get_num.c: which arguments `getInt` accepts, and what it returns for them.
use my_linux_programming_int.Prelude.{
  ℕ, ◌≡◌, refl, ◌≢◌, ◌↔◌, true, false, Option, some, [], ◌∷◌, arith, ℤ, pos, negsuc, ◌≤ℤ◌, Text,
  codes, ap,
}
use my_linux_programming_int.Clib.Strtol.{int_max, Strtol, strtol}
use my_linux_programming_int.GetNum.{
  has_flag, gn_nonneg, gn_gt_0, returned, gn_fail, base_of, check_num, get_num, get_int,
}

-- The documented conditions: the whole text is a number in the base that `flags` asks for, in the
-- range of the result type, with the sign that `flags` asks for.
pub record Accepts (lo hi : ℤ) (arg : Text) (flags : ℕ) (v : ℤ) : Type 0 where
  pub nonempty : arg ≢ []
  pub parsed : strtol arg (base_of flags) ≡ record { res = v; endptr = []; erange = false }
  pub nonneg : has_flag flags gn_nonneg ≡ true → pos 0 ≤ℤ v
  pub positive : has_flag flags gn_gt_0 ≡ true → pos 1 ≤ℤ v
  pub low : lo ≤ℤ v
  pub high : v ≤ℤ hi

abbrev pub AcceptsInt : Text → ℕ → ℤ → Type 0
AcceptsInt = Accepts (negsuc int_max) (pos int_max)

-- what `check_num` accepts
record Passes (flags : ℕ) (r : Strtol) (v : ℤ) : Type 0 where
  in_range : r.erange ≡ false
  whole : r.endptr ≡ []
  value : r.res ≡ v
  nonneg : has_flag flags gn_nonneg ≡ true → pos 0 ≤ℤ v
  positive : has_flag flags gn_gt_0 ≡ true → pos 1 ≤ℤ v

check_num_sound :
    (fname arg : Text) (flags : ℕ) (name : Option Text) (r : Strtol) (v : ℤ)
    → check_num fname arg flags name r ≡ returned v
    → Passes flags r v
unfolding check_num gn_fail
check_num_sound fname arg flags name r v h = ground arith

check_num_complete :
    (fname arg : Text) (flags : ℕ) (name : Option Text) (r : Strtol) (v : ℤ)
    → Passes flags r v
    → check_num fname arg flags name r ≡ returned v
unfolding check_num gn_fail
check_num_complete fname arg flags name r v p = ground arith

get_int_sound :
    (arg : Text) (flags : ℕ) (name : Option Text) (v : ℤ)
    → get_int (some arg) flags name ≡ returned v
    → AcceptsInt arg flags v
unfolding get_int get_num gn_fail
get_int_sound [] flags name v h = absurd (cc)
get_int_sound (c ∷ s) flags name v h =
    let arg = c ∷ s in
    let r = strtol arg (base_of flags) in
    ground (arith, check_num_sound (codes "getInt") arg flags name r v)

get_int_complete :
    (arg : Text) (flags : ℕ) (name : Option Text) (v : ℤ)
    → AcceptsInt arg flags v
    → get_int (some arg) flags name ≡ returned v
unfolding get_int get_num gn_fail
get_int_complete [] flags name v a = absurd (a.nonempty refl)
get_int_complete (c ∷ s) flags name v a =
    let r = strtol (c ∷ s) (base_of flags) in
    let passes : Passes flags r v = record {
      in_range = ap (λ (t : Strtol). t.erange) a.parsed;
      whole = ap (λ (t : Strtol). t.endptr) a.parsed;
      value = ap (λ (t : Strtol). t.res) a.parsed;
      nonneg = a.nonneg;
      positive = a.positive;
    } in
    rw (check_num_complete (codes "getInt") (c ∷ s) flags name r v passes) (ground arith)

pub get_int_iff :
    (arg : Text) (flags : ℕ) (name : Option Text) (v : ℤ)
    → (get_int (some arg) flags name ≡ returned v) ↔ AcceptsInt arg flags v
get_int_iff arg flags name v = (get_int_sound arg flags name v, get_int_complete arg flags name v)
