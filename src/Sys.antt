-- ===== src/Sys.antt =====
-- A process and its system calls. The kernel is a parameter `K` of every model: a system call is a
-- function of it, which replies with a result or with -1 and an error number. `errno` belongs to the
-- process, and is what a failed call stores there.
pub mod Table
use my_linux_programming_int.Prelude.{ℕ, ◌≡◌, refl, ◌⊎◌, inl, inr, Option, none, some}

pub data Reply (A : Type 0) : Type 0 where
  ok : A → Reply A
  fail : (error : ℕ) → Reply A

abbrev pub Call : (K A : Type 0) → Type 0
Call K A = K → Reply A × K

pub record Proc (K : Type 0) : Type 0 where
  pub errno : ℕ
  pub kernel : K

-- The error numbers that the code names, as on Linux.
abbrev pub enoent : ℕ
enoent = 2

abbrev pub eintr : ℕ
eintr = 4

abbrev pub eagain : ℕ
eagain = 11

abbrev pub eacces : ℕ
eacces = 13

abbrev pub einval : ℕ
einval = 22

abbrev pub enametoolong : ℕ
enametoolong = 36

abbrev pub enosys : ℕ
enosys = 38

abbrev pub eoverflow : ℕ
eoverflow = 75

module _ {K A : Type 0} where
  abbrev pub settle : Proc K → Reply A × K → Option A × Proc K
  settle p (ok a, k) = (some a, record p { kernel = k })
  settle p (fail e, k) = (none, record { errno = e; kernel = k })

  -- The wrapper of a system call: `none` is the result -1.
  abbrev pub sys : Call K A → Proc K → Option A × Proc K
  sys f p = settle p (f p.kernel)

-- Code that reads and writes the state of the process.
abbrev pub Act : (K A : Type 0) → Type 0
Act K A = Proc K → A × Proc K

module _ {K A : Type 0} where
  abbrev pub pure : A → Act K A
  pure a p = (a, p)

  infixl 5 ◌>>=◌ ◌>>◌
  abbrev pub ◌>>=◌ : {B : Type 0} → Act K A → (A → Act K B) → Act K B
  ◌>>=◌ m f p = let (a, p') = m p in f a p'

  abbrev pub ◌>>◌ : {B : Type 0} → Act K A → Act K B → Act K B
  ◌>>◌ m f p = f (m p).1

module _ {K : Type 0} where
  abbrev pub get_errno : Act K ℕ
  get_errno p = (p.errno, p)

  abbrev pub set_errno : ℕ → Act K (Unit {0})
  set_errno e p = (tt, record p { errno = e })

pub Reply-cases : {A : Type 0} (r : Reply A) → ((a : A) × (r ≡ ok a)) ⊎ ((e : ℕ) × (r ≡ fail e))
Reply-cases (ok a) = inl (a, refl)
Reply-cases (fail e) = inr (e, refl)

-- A wrapper stores no more than an error number: the kernel is what the call leaves.
pub sys-kernel : {K A : Type 0} (f : Call K A) (p : Proc K) → (sys f p).1.kernel ≡ (f p.kernel).1
sys-kernel f p = elim (Reply-cases (f p.kernel).0) [
  | inl (a, c) ↦ rw c refl
  | inr (e, c) ↦ rw c refl
]
