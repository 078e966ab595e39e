-- ===== src/HashFunctions/Agree.antt =====
-- The hash of hash_open_addressing.c is the 32-bit hash, which continues over a split of the bytes.
use textbook_c_ds_deep.Prelude.{ℕ, ◌≡◌, refl, List, [], ◌∷◌, ◌++◌}
use textbook_c_ds_deep.OpenAddressing.{fnv_loop, h1}
use textbook_c_ds_deep.HashFunctions.{hash_loop_32, fnv1a_32}

-- Hashing two pieces one behind the other is hashing them in one.
pub hash_loop_32-append :
    (first second : List ℕ) (hash : ℕ)
    → hash_loop_32 hash (first ++ second) ≡ hash_loop_32 (hash_loop_32 hash first) second
unfolding hash_loop_32
hash_loop_32-append [] second hash = refl
hash_loop_32-append (p ∷ first) second hash = hash_loop_32-append first second _

fnv_loop-hash_loop_32 : (key : List ℕ) (hash : ℕ) → fnv_loop hash key ≡ hash_loop_32 hash key
unfolding fnv_loop hash_loop_32
fnv_loop-hash_loop_32 [] hash = refl
fnv_loop-hash_loop_32 (c ∷ key) hash = fnv_loop-hash_loop_32 key _

-- `h1` of hash_open_addressing.c computes `fnv1a_32` of the bytes of the key, for every key.
pub h1-fnv1a_32 : (key : List ℕ) → h1 key ≡ fnv1a_32 key
unfolding h1 fnv1a_32
h1-fnv1a_32 key = fnv_loop-hash_loop_32 key _
