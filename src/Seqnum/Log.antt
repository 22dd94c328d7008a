-- ===== src/Seqnum/Log.antt =====
-- is_seqnum_sv.c: what the server has to do for its clients, and what it relies on.
use my_linux_programming_int.Prelude.{
  c_string, ℕ, zero, suc, ◌+◌, ◌%◌, ◌^◌, ◌<◌, ◌≡◌, Bool, List, [], ◌∷◌, ◌++◌, length, take, ℤ, pos,
  negsuc, ltb_ℤ, if◌then◌else◌, Text,
}
use my_linux_programming_int.Sys.{ok, fail}
use my_linux_programming_int.Clib.Strtol.{atoi}
use my_linux_programming_int.Io.Laws.{ReadLaws}
use my_linux_programming_int.Io.ReadLine.Noted.{Notes}
use my_linux_programming_int.Io.ReadLine.Correct.{line, terminated}
use my_linux_programming_int.Seqnum.{SeqApi, seq_num_str}

-- What happens on the connections: one is accepted, on which `ahead` is all that will come; a text is
-- written to it; a read from it fails, with another error than `EINTR`.
pub data Event : Type 0 where
  accepted : (cfd : ℕ) (ahead : Text) → Event
  sent : (cfd : ℕ) → Text → Event
  broken : (cfd : ℕ) → Event

-- What the server relies on: `events` are those so far, in order, and each connection delivers less
-- than `fuel`, in bytes and in interruptions by signal handlers.
pub record SeqLaws {K : Type 0} (os : SeqApi K) (fuel : ℕ) : Type 0 where
  pub events : K → List Event
  pub reads : (cfd : ℕ) → ReadLaws (os.read cfd)
  pub short :
      (lfd cfd : ℕ) (k : K)
      → (os.accept lfd k).0 ≡ ok cfd
      → let k' = (os.accept lfd k).1 in
        length ((reads cfd).stream k') + (reads cfd).pending k' < fuel
  pub accept_ok :
      (lfd cfd : ℕ) (k : K)
      → (os.accept lfd k).0 ≡ ok cfd
      → let k' = (os.accept lfd k).1 in
        events k' ≡ events k ++ accepted cfd ((reads cfd).stream k') ∷ []
  pub accept_failed :
      (lfd : ℕ) (k : K) (e : ℕ)
      → (os.accept lfd k).0 ≡ fail e
      → events (os.accept lfd k).1 ≡ events k
  pub read_notes : (cfd : ℕ) → Notes (os.read cfd) events (λ l. l ++ broken cfd ∷ [])
  pub written :
      (cfd : ℕ) (s : Text) (k : K) → events (os.write cfd s k).1 ≡ events k ++ sent cfd s ∷ []
  pub close_kept : (cfd : ℕ) (k : K) → events (os.sockets.close cfd k).1 ≡ events k

-- The number that the first line asks for, of which no more than 29 bytes count; 0 without a line.
unfoldable pub asked : (ahead : Text) → ℤ
asked ahead =
    let content = take 29 (line ahead) in
    if ltb_ℤ (pos 0) (pos (length content))
    then atoi (c_string (terminated content ahead))
    else pos 0

-- Only a request for one number or more is answered, and moves the counter.
abbrev pub reply : (cfd seq : ℕ) → ℤ → List Event
reply cfd seq (pos zero) = []
reply cfd seq (pos (suc n)) = sent cfd (seq_num_str seq) ∷ []
reply cfd seq (negsuc n) = []

abbrev pub move : (seq : ℕ) → ℤ → ℕ
move seq (pos zero) = seq
move seq (pos (suc n)) = (seq + suc n) % 2 ^ 32
move seq (negsuc n) = seq

-- A connection: what comes on it, and whether a read fails before the first line has come.
pub record Client : Type 0 where
  pub cfd : ℕ
  pub ahead : Text
  pub fails : Bool

-- what the server does behind the accept, and the counter that it comes to
abbrev pub response : (seq : ℕ) → Client → List Event
response seq c = if c.fails then broken c.cfd ∷ [] else reply c.cfd seq (asked c.ahead)

abbrev pub behind : (seq : ℕ) → Client → ℕ
behind seq c = if c.fails then seq else move seq (asked c.ahead)

abbrev pub exchange : (seq : ℕ) → Client → List Event
exchange seq c = accepted c.cfd c.ahead ∷ response seq c

-- the same of connections one after another
abbrev pub exchanges : (seq : ℕ) → List Client → List Event
exchanges seq [] = []
exchanges seq (c ∷ l) = exchange seq c ++ exchanges (behind seq c) l

abbrev pub total : (seq : ℕ) → List Client → ℕ
total seq [] = seq
total seq (c ∷ l) = total (behind seq c) l
