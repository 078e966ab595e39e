-- ===== src/Tests/Hashes.antt =====
-- hash_open_addressing.c and hash_functions.c.
use textbook_c_ds_deep.Prelude.{ℕ, ◌≡◌, refl, true, some, List, [], ◌∷◌, same_string}
use textbook_c_ds_deep.Run.{Run, ok, Returns, ◌>>=◌}
use textbook_c_ds_deep.Array.{load, store}
use textbook_c_ds_deep.OpenAddressing.{
  OaHashMap, linear, oa_init, oa_get, oa_put, oa_remove, probe, h1, h2,
}
use textbook_c_ds_deep.HashFunctions.{hash_loop_32, fnv1a_32, hash_loop_64, fnv1a_64}
use textbook_c_ds_deep.OpenAddressing.Put.{Stored, oa_init-IsValid, oa_put-Stored}

abbrev fresh : OaHashMap
fresh = oa_init linear

-- Two keys with one home slot.
abbrev first_key : List ℕ
first_key = b'a' ∷ []

abbrev second_key : List ℕ
second_key = b'g' ∷ b'b' ∷ []

-- The second key is put behind the first; when the first is gone a new value for the second goes into
-- the slot that it left.
abbrev twice : Run OaHashMap
twice = do
  (_, a) ← oa_put fresh first_key 1 true
  (_, b) ← oa_put a second_key 2 true
  (_, c) ← oa_remove b first_key
  (_, e) ← oa_put c second_key 3 true
  ok e

twice_found : (twice >>= λ t. oa_get t second_key) ≡ ok (some 3)
unfolding oa_init oa_get oa_put oa_remove probe h1 h2 load store same_string
twice_found = refl

-- Removing the key then brings its old value back.
twice_stale :
    (twice >>= λ t. oa_remove t second_key >>= λ (_, u). oa_get u second_key) ≡ ok (some 2)
unfolding oa_init oa_get oa_put oa_remove probe h1 h2 load store same_string
twice_stale = refl

oa_put-Stored_example : Returns (Stored fresh first_key 7) (oa_put fresh first_key 7 true)
oa_put-Stored_example = oa_put-Stored fresh first_key 7 (oa_init-IsValid linear)

-- The published hashes of "foobar" and "a".
foobar_32 : fnv1a_32 (0x66 ∷ 0x6F ∷ 0x6F ∷ 0x62 ∷ 0x61 ∷ 0x72 ∷ []) ≡ 0xBF9CF968
unfolding fnv1a_32 hash_loop_32
foobar_32 = refl

letter_64 : fnv1a_64 (0x61 ∷ []) ≡ 0xAF63DC4C8601EC8C
unfolding fnv1a_64 hash_loop_64
letter_64 = refl
