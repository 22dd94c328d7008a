-- ===== src/Clib/Strings.antt =====
-- `strncpy` and `snprintf` of the C library, on arrays of bytes.
use my_linux_programming_int.Prelude.{ℕ, ◌-◌, ◌++◌, take, drop, replicate, Text}

-- `strncpy(dst, src, n)`: `src` padded with NUL bytes to `n`, or its first `n` bytes.
abbrev pub strncpy : (dst src : Text) (n : ℕ) → Text
strncpy dst src n = take n (src ++ replicate n 0) ++ drop n dst

-- The string that `snprintf(buf, size, ...)` leaves in a buffer of `size` bytes, of a full print `s`.
abbrev pub snprintf : (size : ℕ) (s : Text) → Text
snprintf size s = take (size - 1) s
