-- ===== src/Sockets/Pty/Master.antt =====
-- lib/pty_master_open.c: the descriptors and the name that `ptyMasterOpen` leaves.
use my_linux_programming_int.Prelude.{
  ℕ, ◌-◌, ◌<◌, ◌≡◌, refl, sym, ap, ◌∙◌, inl, inr, Option, none, some, List, ◌∷◌, ◌++◌, ltb, length,
  drop, replicate, take-append_le, take-replicate, arith, Text, Bool-cases,
}
use mathlib.Core.Path.{subst}
use my_linux_programming_int.Sys.{Proc, ok, fail, Reply-cases}
use my_linux_programming_int.Clib.Strings.{strncpy}
use my_linux_programming_int.Sockets.Pty.{PtyApi, give_up, store_name, set_up, pty_master_open}

-- A view of the kernel: what holds at the call, with no terminal of ours open, and with the master `fd`
-- open, and of a name that `ptsname` gives.
pub record PtyView {K : Type 0} (os : PtyApi K) : Type 1 where
  pub Begins : K → Type 0
  pub Shut : K → Type 0
  pub Holds : (fd : ℕ) → K → Type 0
  pub IsName : Text → Type 0
  pub openpt_ok :
      (k : K) (fd : ℕ) → Begins k → (os.posix_openpt k).0 ≡ ok fd → Holds fd (os.posix_openpt k).1
  pub openpt_fail :
      (k : K) (e : ℕ) → Begins k → (os.posix_openpt k).0 ≡ fail e → Shut (os.posix_openpt k).1
  pub grantpt_kept : (fd : ℕ) (k : K) → Holds fd k → Holds fd (os.grantpt fd k).1
  pub unlockpt_kept : (fd : ℕ) (k : K) → Holds fd k → Holds fd (os.unlockpt fd k).1
  pub ptsname_kept : (fd : ℕ) (k : K) → Holds fd k → Holds fd (os.ptsname fd k).1
  pub named :
      (fd : ℕ) (k : K) (name : Text) → Holds fd k → (os.ptsname fd k).0 ≡ ok name → IsName name
  pub close_drops : (fd : ℕ) (k : K) → Holds fd k → Shut (os.close fd k).1

-- a name that fits, padded to `n` bytes
padded :
    (dst name : Text) (n : ℕ)
    → length name < n
    → strncpy dst name n ≡ (name ++ replicate (n - length name) 0) ++ drop n dst
padded dst name n fits =
    rw
      (
        take-append_le n name (replicate n 0) (omega arith),
        take-replicate {A = ℕ} (n - length name) n 0 (omega arith),
      )
      refl

-- the branches, by the replies
module _ {K : Type 0} (os : PtyApi K) (fd sn_len : ℕ) (slave_name : Text) (p : Proc K) where
  abbrev k1 : K
  k1 = (os.grantpt fd p.kernel).1

  abbrev k2 : K
  k2 = (os.unlockpt fd k1).1

  abbrev k3 : K
  k3 = (os.ptsname fd k2).1

  not_granted :
      (e : ℕ)
      → (os.grantpt fd p.kernel).0 ≡ fail e
      → set_up os fd sn_len slave_name p
        ≡ give_up os fd slave_name (record { errno = e; kernel = k1 })
  unfolding set_up
  not_granted e c = ground arith

  not_unlocked :
      (e : ℕ) (u : Unit {0})
      → (os.grantpt fd p.kernel).0 ≡ ok u
      → (os.unlockpt fd k1).0 ≡ fail e
      → set_up os fd sn_len slave_name p
        ≡ give_up os fd slave_name (record { errno = e; kernel = k2 })
  unfolding set_up
  not_unlocked e u c d = ground arith

  not_named :
      (e : ℕ) (u v : Unit {0})
      → (os.grantpt fd p.kernel).0 ≡ ok u
      → (os.unlockpt fd k1).0 ≡ ok v
      → (os.ptsname fd k2).0 ≡ fail e
      → set_up os fd sn_len slave_name p
        ≡ give_up os fd slave_name (record { errno = e; kernel = k3 })
  unfolding set_up
  not_named e u v c d b = ground arith

  named :
      (u v : Unit {0}) (name : Text)
      → (os.grantpt fd p.kernel).0 ≡ ok u
      → (os.unlockpt fd k1).0 ≡ ok v
      → (os.ptsname fd k2).0 ≡ ok name
      → set_up os fd sn_len slave_name p
        ≡ store_name os fd sn_len slave_name name (record p { kernel = k3 })
  unfolding set_up
  named u v name c d b = ground arith

with_master :
    {K : Type 0} (os : PtyApi K) (sn_len : ℕ) (slave_name : Text) (p : Proc K) (fd : ℕ)
    → (os.posix_openpt p.kernel).0 ≡ ok fd
    → pty_master_open os slave_name sn_len p
      ≡ set_up os fd sn_len slave_name (record p { kernel = (os.posix_openpt p.kernel).1 })
unfolding pty_master_open
with_master os sn_len slave_name p fd c = ground arith

-- On success the result is open and nothing else is new, and the buffer starts with a name that fits
-- it with its terminator; on failure nothing is newly open, and the buffer is as before.
abbrev pub Opens :
    {K : Type 0} (Shut : K → Type 0) (Holds : ℕ → K → Type 0) (slave_name : Text) (sn_len : ℕ)
    → (Option ℕ × Text) × Proc K
    → Type 0
Opens Shut Holds slave_name sn_len ((none, buf), p) = Shut p.kernel × (buf ≡ slave_name)
Opens Shut Holds slave_name sn_len ((some fd, buf), p) =
    Holds fd p.kernel
    × (name : Text) × (length name < sn_len)
    × (buf ≡ (name ++ replicate (sn_len - length name) 0) ++ drop sn_len slave_name)

-- the same, with the name one that `ptsname` gives
abbrev pub OpensAs :
    {K : Type 0} (IsName : Text → Type 0) (Shut : K → Type 0) (Holds : ℕ → K → Type 0)
    (slave_name : Text) (sn_len : ℕ)
    → (Option ℕ × Text) × Proc K
    → Type 0
OpensAs IsName Shut Holds slave_name sn_len ((none, buf), p) = Shut p.kernel × (buf ≡ slave_name)
OpensAs IsName Shut Holds slave_name sn_len ((some fd, buf), p) =
    Holds fd p.kernel
    × (name : Text) × IsName name
    × (length name < sn_len)
    × (buf ≡ (name ++ replicate (sn_len - length name) 0) ++ drop sn_len slave_name)

OpensAs-Opens :
    {K : Type 0} (IsName : Text → Type 0) (Shut : K → Type 0) (Holds : ℕ → K → Type 0)
    (slave_name : Text) (sn_len : ℕ) (r : (Option ℕ × Text) × Proc K)
    → OpensAs IsName Shut Holds slave_name sn_len r
    → Opens Shut Holds slave_name sn_len r
OpensAs-Opens IsName Shut Holds slave_name sn_len ((none, buf), p) h = h
OpensAs-Opens IsName Shut Holds slave_name sn_len ((some fd, buf), p) (held, name, is, fits, same) =
    (held, name, fits, same)

module _ {K : Type 0} (os : PtyApi K) (view : PtyView os) where
  open view use {
    Begins, Shut, Holds, IsName, openpt_ok, openpt_fail, grantpt_kept, unlockpt_kept, ptsname_kept,
    close_drops,
  }

  module _ (fd sn_len : ℕ) (slave_name : Text) where
    give_up-OpensAs :
        (p : Proc K)
        → Holds fd p.kernel
        → OpensAs IsName Shut Holds slave_name sn_len (give_up os fd slave_name p)
    unfolding give_up
    give_up-OpensAs p held = (ground (arith, close_drops fd p.kernel held), refl)

    store_name-OpensAs :
        (name : Text) (p : Proc K)
        → Holds fd p.kernel
        → IsName name
        → OpensAs IsName Shut Holds slave_name sn_len (store_name os fd sn_len slave_name name p)
    unfolding store_name
    store_name-OpensAs name p held is = elim (Bool-cases (ltb (length name) sn_len)) [
      | inl fits ↦
          rw fits (held, name, is, ground arith, padded slave_name name sn_len (ground arith))
      | inr long ↦ rw long (ground (arith, close_drops fd p.kernel held), refl)
    ]

    set_up-OpensAs :
        (p : Proc K)
        → Holds fd p.kernel
        → OpensAs IsName Shut Holds slave_name sn_len (set_up os fd sn_len slave_name p)
    set_up-OpensAs p held =
        let k1 = (os.grantpt fd p.kernel).1 in
        let k2 = (os.unlockpt fd k1).1 in
        let k3 = (os.ptsname fd k2).1 in
        let h1 = grantpt_kept fd p.kernel held in
        let h2 = unlockpt_kept fd k1 h1 in
        let h3 = ptsname_kept fd k2 h2 in
        elim (Reply-cases (os.grantpt fd p.kernel).0) [
          | inr (e, c) ↦
              subst (OpensAs IsName Shut Holds slave_name sn_len)
                (sym (not_granted os fd sn_len slave_name p e c))
                (give_up-OpensAs (record { errno = e; kernel = k1 }) h1)
          | inl (u, c) ↦ elim (Reply-cases (os.unlockpt fd k1).0) [
            | inr (e, d) ↦
                subst (OpensAs IsName Shut Holds slave_name sn_len)
                  (sym (not_unlocked os fd sn_len slave_name p e u c d))
                  (give_up-OpensAs (record { errno = e; kernel = k2 }) h2)
            | inl (v, d) ↦ elim (Reply-cases (os.ptsname fd k2).0) [
              | inr (e, b) ↦
                  subst (OpensAs IsName Shut Holds slave_name sn_len)
                    (sym (not_named os fd sn_len slave_name p e u v c d b))
                    (give_up-OpensAs (record { errno = e; kernel = k3 }) h3)
              | inl (name, b) ↦
                  subst (OpensAs IsName Shut Holds slave_name sn_len)
                    (sym (named os fd sn_len slave_name p u v name c d b))
                    (store_name-OpensAs name (record p { kernel = k3 }) h3
                      (view.named fd k2 name h2 b))
            ]
          ]
        ]

  pub master-OpensAs :
      (slave_name : Text) (sn_len : ℕ) (p : Proc K)
      → Begins p.kernel
      → OpensAs IsName Shut Holds slave_name sn_len (pty_master_open os slave_name sn_len p)
  unfolding pty_master_open
  master-OpensAs slave_name sn_len p shut =
      let k = (os.posix_openpt p.kernel).1 in
      elim (Reply-cases (os.posix_openpt p.kernel).0) [
        | inr (e, c) ↦ ground (arith, openpt_fail p.kernel e shut c)
        | inl (fd, c) ↦
            subst (OpensAs IsName Shut Holds slave_name sn_len)
              (sym (with_master os sn_len slave_name p fd c))
              (set_up-OpensAs fd sn_len slave_name (record p { kernel = k })
                (openpt_ok p.kernel fd shut c))
      ]

-- the descriptors that the process has open, the latest first
pub record PtyDescriptors {K : Type 0} (os : PtyApi K) : Type 0 where
  pub opened : K → List ℕ
  pub openpt_ok :
      (k : K) (fd : ℕ)
      → (os.posix_openpt k).0 ≡ ok fd
      → opened (os.posix_openpt k).1 ≡ fd ∷ opened k
  pub openpt_fail :
      (k : K) (e : ℕ) → (os.posix_openpt k).0 ≡ fail e → opened (os.posix_openpt k).1 ≡ opened k
  pub grantpt_kept : (fd : ℕ) (k : K) → opened (os.grantpt fd k).1 ≡ opened k
  pub unlockpt_kept : (fd : ℕ) (k : K) → opened (os.unlockpt fd k).1 ≡ opened k
  pub ptsname_kept : (fd : ℕ) (k : K) → opened (os.ptsname fd k).1 ≡ opened k
  pub close_drops : (fd : ℕ) (k : K) (l : List ℕ) → opened k ≡ fd ∷ l → opened (os.close fd k).1 ≡ l

abbrev view_at :
    {K : Type 0} {os : PtyApi K} (laws : PtyDescriptors os) (before : List ℕ) → PtyView os
view_at laws before = record {
  Begins = λ k. laws.opened k ≡ before;
  Shut = λ k. laws.opened k ≡ before;
  Holds = λ fd k. laws.opened k ≡ fd ∷ before;
  openpt_ok = λ k fd shut c. laws.openpt_ok k fd c ∙ ap (λ l. fd ∷ l) shut;
  openpt_fail = λ k e shut c. laws.openpt_fail k e c ∙ shut;
  grantpt_kept = λ fd k held. laws.grantpt_kept fd k ∙ held;
  unlockpt_kept = λ fd k held. laws.unlockpt_kept fd k ∙ held;
  ptsname_kept = λ fd k held. laws.ptsname_kept fd k ∙ held;
  IsName = λ name. Unit;
  named = λ fd k name held c. tt;
  close_drops = λ fd k held. laws.close_drops fd k before held;
}

module _ {K : Type 0} (os : PtyApi K) (laws : PtyDescriptors os) where
  -- `ptyMasterOpen` leaves exactly the descriptor open that it returns, and none when it fails. On
  -- success the buffer starts with a name that fits it with its terminator, padded with NUL bytes; on
  -- failure the buffer is not touched.
  pub pty_master_open-Opens :
      (slave_name : Text) (sn_len : ℕ) (p : Proc K)
      → Opens
          (λ k. laws.opened k ≡ laws.opened p.kernel)
          (λ fd k. laws.opened k ≡ fd ∷ laws.opened p.kernel)
          slave_name
          sn_len
          (pty_master_open os slave_name sn_len p)
  pty_master_open-Opens slave_name sn_len p =
      let before = laws.opened p.kernel in
      OpensAs-Opens (λ name. Unit) (λ k. laws.opened k ≡ before)
        (λ fd k. laws.opened k ≡ fd ∷ before) slave_name sn_len
        (pty_master_open os slave_name sn_len p)
        (master-OpensAs os (view_at laws before) slave_name sn_len p refl)
