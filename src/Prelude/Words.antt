-- ===== src/Prelude/Words.antt =====
-- The C strings, and the words of fixed width, that several programs use.
use Prim.Native.Nat.{ℕ, ◌+◌, ◌-◌, ◌%◌, ◌^◌}
use mathlib.Core.List.{List, ◌++◌}
use textbook_c_ds_deep.Prelude.Lists.{take, drop, replicate}

-- `strncpy(dst, src, n)` for a string `src`, its bytes less the final zero, into the array `dst`: the
-- first `n` bytes of the string, padded with zeros; the array's other bytes stay.
unfoldable pub strncpy : List ℕ → List ℕ → ℕ → List ℕ
strncpy dst src n = take n (src ++ replicate n 0) ++ drop n dst

-- `x - 1` and `x + 1` on a `size_t` or `uint64_t`.
abbrev pub dec64 : ℕ → ℕ
dec64 x = (x + (2 ^ 64 - 1)) % 2 ^ 64

abbrev pub inc64 : ℕ → ℕ
inc64 x = (x + 1) % 2 ^ 64
