-- ===== src/Echo/Reaper.antt =====
-- 60-socket-design/is_echo_sv.c: `grimReaper`, the dead children and `errno`.
use my_linux_programming_int.Prelude.{
  ℕ, zero, suc, ◌<◌, ◌≡◌, refl, sym, inl, inr, Option, none, some, arith,
}
use mathlib.Core.Option
use mathlib.Core.Path.{subst}
use my_linux_programming_int.Sys.{Proc, ok, fail, Reply-cases}
use my_linux_programming_int.Echo.{EchoApi, reap, restore_errno, grim_reaper}

-- `children` are those not yet waited for, `dead` those of them that have ended by the end of a call.
-- A call of waitpid() for any child that does not block takes one, finds none dead, or has none.
pub record ReapLaws {K : Type 0} (os : EchoApi K) : Type 0 where
  pub children : K → ℕ
  pub dead : K → ℕ
  pub reaped :
      (k : K) (n : ℕ) → (os.waitpid k).0 ≡ ok (suc n) → children k ≡ suc (children (os.waitpid k).1)
  pub none_dead : (k : K) → (os.waitpid k).0 ≡ ok 0 → dead (os.waitpid k).1 ≡ 0
  pub none_left : (k : K) (e : ℕ) → (os.waitpid k).0 ≡ fail e → dead (os.waitpid k).1 ≡ 0

module _ {K : Type 0} (os : EchoApi K) (laws : ReapLaws os) where
  open laws use {children, dead, reaped, none_dead, none_left}

  abbrev Clears : Option (Proc K) → Type 0
  Clears none = ⊥
  Clears (some p) = dead p.kernel ≡ 0

  module _ (fuel : ℕ) (p : Proc K) where
    abbrev next : K
    next = (os.waitpid p.kernel).1

    reap_no_child :
        (e : ℕ)
        → (os.waitpid p.kernel).0 ≡ fail e
        → reap os (suc fuel) p ≡ some (record { errno = e; kernel = next })
    unfolding reap
    reap_no_child e c = ground arith

    reap_no_more :
        (os.waitpid p.kernel).0 ≡ ok 0 → reap os (suc fuel) p ≡ some (record p { kernel = next })
    unfolding reap
    reap_no_more c = ground arith

    reap_one :
        (n : ℕ)
        → (os.waitpid p.kernel).0 ≡ ok (suc n)
        → reap os (suc fuel) p ≡ reap os fuel (record p { kernel = next })
    unfolding reap
    reap_one n c = ground arith

  reap-Clears : (fuel : ℕ) (p : Proc K) → children p.kernel < fuel → Clears (reap os fuel p)
  reap-Clears zero p enough = absurd (omega arith)
  reap-Clears (suc fuel) p enough = elim (Reply-cases (os.waitpid p.kernel).0) [
    | inr (e, c) ↦ subst Clears (sym (reap_no_child fuel p e c)) (none_left p.kernel e c)
    | inl (zero, c) ↦ subst Clears (sym (reap_no_more fuel p c)) (none_dead p.kernel c)
    | inl (suc n, c) ↦
        subst Clears (sym (reap_one fuel p n c)) (
          reap-Clears fuel (record p { kernel = next fuel p }) (omega (arith, reaped p.kernel n c)))
  ]

  -- `grimReaper` returns
  abbrev pub Reaps : (errno : ℕ) → Option (Proc K) → Type 0
  Reaps errno none = ⊥
  Reaps errno (some p) = (p.errno ≡ errno) × (dead p.kernel ≡ 0)

  restored :
      (errno : ℕ) (r : Option (Proc K))
      → Clears r
      → Reaps errno (Option.map (restore_errno os errno) r)
  restored errno none h = h
  restored errno (some p) h = (refl, h)

  -- With fuel for the children that are not yet waited for, `grimReaper` returns; no dead child is
  -- left then, and `errno` is as before.
  pub grim_reaper-Reaps :
      (fuel : ℕ) (p : Proc K) → children p.kernel < fuel → Reaps p.errno (grim_reaper os fuel p)
  unfolding grim_reaper
  grim_reaper-Reaps fuel p enough = restored p.errno (reap os fuel p) (reap-Clears fuel p enough)
