-- ===== src/Io/Laws.antt =====
-- What the code relies on of `read` and `write`, as documented for blocking descriptors.
use my_linux_programming_int.Prelude.{ℕ, ◌≤◌, ◌<◌, ◌≡◌, [], ◌++◌, length, take, Text}
use my_linux_programming_int.Sys.{Call, ok, fail, eintr}

-- `read(fd, buf, n)` on one descriptor. `stream` is what is still to be delivered before the end of
-- the file; `pending` bounds the interruptions by signal handlers that are still to come.
pub record ReadLaws {K : Type 0} (read : ℕ → Call K Text) : Type 0 where
  pub stream : K → Text
  pub pending : K → ℕ
  pub got :
      (n : ℕ) (k : K) (bs : Text)
      → (read n k).0 ≡ ok bs
      → (stream k ≡ bs ++ stream (read n k).1)
        × (length bs ≤ n)
        × (pending (read n k).1 ≤ pending k)
  pub at_end : (n : ℕ) (k : K) → 0 < n → (read n k).0 ≡ ok [] → stream k ≡ []
  pub kept : (n : ℕ) (k : K) (e : ℕ) → (read n k).0 ≡ fail e → stream (read n k).1 ≡ stream k
  pub interrupted : (n : ℕ) (k : K) → (read n k).0 ≡ fail eintr → pending (read n k).1 < pending k

-- `write(fd, buf, n)` on one descriptor, given the `n` bytes. `sink` is what the descriptor has
-- accepted so far.
pub record WriteLaws {K : Type 0} (write : Text → Call K ℕ) : Type 0 where
  pub sink : K → Text
  pub pending : K → ℕ
  pub wrote :
      (bs : Text) (k : K) (m : ℕ)
      → (write bs k).0 ≡ ok m
      → (sink (write bs k).1 ≡ sink k ++ take m bs)
        × (m ≤ length bs)
        × (pending (write bs k).1 ≤ pending k)
  pub kept : (bs : Text) (k : K) (e : ℕ) → (write bs k).0 ≡ fail e → sink (write bs k).1 ≡ sink k
  pub interrupted :
      (bs : Text) (k : K) → (write bs k).0 ≡ fail eintr → pending (write bs k).1 < pending k
