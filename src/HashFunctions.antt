-- ===== src/HashFunctions.antt =====
-- hash_functions.c: FNV-1a in 32 and 64 bits. `data` is the list of its `len` bytes.
pub mod Agree
use Prim.Native.Nat.{bit_xor}
use textbook_c_ds_deep.Prelude.{ℕ, ◌*◌, ◌%◌, ◌^◌, List, [], ◌∷◌}

-- FNV_OFFSET_32 and FNV_PRIME_32
abbrev pub fnv_offset_32 : ℕ
fnv_offset_32 = 2166136261

abbrev pub fnv_prime_32 : ℕ
fnv_prime_32 = 16777619

-- FNV_OFFSET_64 and FNV_PRIME_64
abbrev pub fnv_offset_64 : ℕ
fnv_offset_64 = 14695981039346656037

abbrev pub fnv_prime_64 : ℕ
fnv_prime_64 = 1099511628211

-- The loop of `fnv1a_32`.
unfoldable pub hash_loop_32 : ℕ → List ℕ → ℕ
hash_loop_32 hash [] = hash
hash_loop_32 hash (p ∷ bytes) = hash_loop_32 (bit_xor hash p * fnv_prime_32 % 2 ^ 32) bytes

unfoldable pub fnv1a_32 : List ℕ → ℕ
unfolding hash_loop_32
fnv1a_32 bytes = hash_loop_32 fnv_offset_32 bytes

-- The loop of `fnv1a_64`.
unfoldable pub hash_loop_64 : ℕ → List ℕ → ℕ
hash_loop_64 hash [] = hash
hash_loop_64 hash (p ∷ bytes) = hash_loop_64 (bit_xor hash p * fnv_prime_64 % 2 ^ 64) bytes

unfoldable pub fnv1a_64 : List ℕ → ℕ
unfolding hash_loop_64
fnv1a_64 bytes = hash_loop_64 fnv_offset_64 bytes
