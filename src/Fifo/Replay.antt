-- ===== src/Fifo/Replay.antt =====
-- fifo_seqnum_server.c: what the server has to do for a list of requests.
use my_linux_programming_int.Prelude.{
  ℕ, ◌+◌, ◌≤◌, ◌≡◌, refl, sym, ap, ◌∙◌, ◌⊎◌, inl, inr, Bool, true, false, not, ◌&&◌, Bool-cases,
  List, [], ◌∷◌, ◌++◌, ℤ, pos, negsuc, ◌+ℤ◌, ◌≤ℤ◌, ltb_ℤ, Text, arith,
}
use mathlib.Core.Path.{subst}
use my_linux_programming_int.Clib.Strtol.{to_int, int_max}
use my_linux_programming_int.Fifo.{Request, client_fifo}

-- What happens at the FIFOs: a whole request is read, the FIFO at a path is opened, `seqNum` is written
-- to a descriptor.
pub data Event : Type 0 where
  asked : Request → Event
  opened_fifo : (path : Text) (fd : ℕ) → Event
  wrote : (fd : ℕ) (seq_num : ℤ) → Event

-- the counter behind a request, as an `int`
abbrev pub behind : (seq : ℤ) → Request → ℤ
behind seq req = to_int (seq +ℤ req.seq_len)

-- The counter behind requests that were answered on a descriptor each.
abbrev pub total : (seq : ℤ) → List (Request × ℕ) → ℤ
total seq [] = seq
total seq ((req, fd) ∷ l) = total (behind seq req) l

-- Each request is answered in its client's FIFO, by the counter.
abbrev pub answers : (seq : ℤ) → List (Request × ℕ) → List Event
answers seq [] = []
answers seq ((req, fd) ∷ l) =
    asked req ∷ opened_fifo (client_fifo req.pid) fd ∷ wrote fd seq ∷ answers (behind seq req) l

-- The counter is `low` or more at each of the requests.
abbrev pub Above : (low seq : ℤ) → List (Request × ℕ) → Type 0
Above low seq [] = Unit
Above low seq ((req, fd) ∷ l) = (low ≤ℤ seq) × Above low (behind seq req) l

-- Every range ends before each later one begins.
abbrev pub Disjoint : (seq : ℤ) → List (Request × ℕ) → Type 0
Disjoint seq [] = Unit
Disjoint seq ((req, fd) ∷ l) =
    Above (seq +ℤ req.seq_len) (behind seq req) l × Disjoint (behind seq req) l

-- No length is negative, and the counter does not pass the greatest `int`.
abbrev pub fits : (seq : ℤ) → List (Request × ℕ) → Bool
fits seq [] = true
fits seq ((req, fd) ∷ l) =
    not (ltb_ℤ req.seq_len (pos 0))
    && not (ltb_ℤ (pos int_max) (seq +ℤ req.seq_len))
    && fits (behind seq req) l

-- Where it fits, the counter moves by the length.
moves :
    (n : ℕ) (z : ℤ)
    → not (ltb_ℤ z (pos 0)) ≡ true
    → not (ltb_ℤ (pos int_max) (pos n +ℤ z)) ≡ true
    → (m : ℕ) × (pos n +ℤ z ≡ pos m) × (to_int (pos n +ℤ z) ≡ pos m) × (n ≤ m)
unfolding ◌+ℤ◌ to_int
moves n (pos j) h f = (n + j, ground arith, ground arith, omega arith)
moves n (negsuc j) h f = absurd (ground arith)

fits-Above :
    (low n : ℕ) (l : List (Request × ℕ))
    → low ≤ n
    → fits (pos n) l ≡ true
    → Above (pos low) (pos n) l
fits-Above low n [] h f = tt
fits-Above low n ((req, fd) ∷ l) h f =
    let (m, same, next, le) = moves n req.seq_len (ground (arith, f)) (ground (arith, f)) in
    (
      omega arith,
      rw next
          (fits-Above low m l (omega arith) (ap (λ z. fits z l) (sym next) ∙ ground (arith, f))),
    )

fits-Disjoint : (n : ℕ) (l : List (Request × ℕ)) → fits (pos n) l ≡ true → Disjoint (pos n) l
fits-Disjoint n [] f = tt
fits-Disjoint n ((req, fd) ∷ l) f =
    let (m, same, next, le) = moves n req.seq_len (ground (arith, f)) (ground (arith, f)) in
    let rest : fits (pos m) l ≡ true = ap (λ z. fits z l) (sym next) ∙ ground (arith, f) in
    (
      subst (λ low. Above low (behind (pos n) req) l) (sym same)
          (subst (λ c. Above (pos m) c l) (sym next) (fits-Above m m l (omega arith) rest)),
      subst (λ c. Disjoint c l) (sym next) (fits-Disjoint m l rest),
    )

pub fits-cases : (l : List (Request × ℕ)) → (fits (pos 0) l ≡ false) ⊎ Disjoint (pos 0) l
fits-cases l = elim (Bool-cases (fits (pos 0) l)) [
  | inl f ↦ inr (fits-Disjoint 0 l f)
  | inr f ↦ inl f
]

pub total-snoc :
    (seq : ℤ) (l : List (Request × ℕ)) (req : Request) (fd : ℕ)
    → total seq (l ++ (req, fd) ∷ []) ≡ behind (total seq l) req
total-snoc seq [] req fd = refl
total-snoc seq ((r, d) ∷ l) req fd = total-snoc (behind seq r) l req fd

pub answers-snoc :
    (seq : ℤ) (l : List (Request × ℕ)) (req : Request) (fd : ℕ)
    → answers seq (l ++ (req, fd) ∷ [])
      ≡ answers seq l
        ++ asked req ∷ opened_fifo (client_fifo req.pid) fd ∷ wrote fd (total seq l) ∷ []
answers-snoc seq [] req fd = refl
answers-snoc seq ((r, d) ∷ l) req fd =
    ap (λ t. asked r ∷ opened_fifo (client_fifo r.pid) d ∷ wrote d seq ∷ t)
      (answers-snoc (behind seq r) l req fd)
