-- ===== src/Tests/Maps.antt =====
-- hash_chaining.c.
use textbook_c_ds_deep.Prelude.{
  ℕ, ◌*◌, ◌≡◌, refl, true, false, some, none, List, [], ◌∷◌, arith, ltb, same_string,
}
use textbook_c_ds_deep.Run.{ok, fault, Returns, ◌>>=◌}
use textbook_c_ds_deep.Array.{at, load, store}
use textbook_c_ds_deep.HashFunctions.{hash_loop_32}
use textbook_c_ds_deep.Chaining.{
  HashMap, hm_init, hm_put, hm_get, hm_remove, hm_rehash, rehash_loop, move_chain, bucket_idx,
  chain_get, chain_update, chain_remove, fnv1a, chain_default,
}
use textbook_c_ds_deep.Chaining.View.{IsTable, none_}
use textbook_c_ds_deep.Chaining.Methods.{Put, Removed, hm_put-Put, hm_remove-Removed}

-- One bucket for one entry.
abbrev fresh : HashMap
fresh = hm_init true 1

fresh-IsTable : IsTable fresh.bucket_count fresh.buckets
unfolding hm_init at
fresh-IsTable = record {
  width = refl;
  positive = omega arith;
  chains = λ i p. let e : i ≡ 0 = omega (arith, p) in rw e none_;
}

abbrev apple : List ℕ
apple = 0x61 ∷ 0x70 ∷ []

abbrev pear : List ℕ
pear = 0x70 ∷ 0x65 ∷ []

-- The second put doubles the buckets; the keys are found, and a removed one is not.
moved_found :
    (hm_put (λ s c. ltb (3 * c) (4 * s)) true true true fresh apple 1 >>= λ a.
    hm_put (λ s c. ltb (3 * c) (4 * s)) true true true a pear 2 >>= λ b. hm_get b apple)
    ≡ ok (some 1)
unfolding hm_init hm_put hm_get hm_remove hm_rehash rehash_loop move_chain bucket_idx chain_get
    chain_update chain_remove fnv1a hash_loop_32 load store same_string
moved_found = refl

removed_missing :
    (hm_put (λ s c. ltb (3 * c) (4 * s)) true true true fresh apple 1 >>= λ a.
    hm_put (λ s c. ltb (3 * c) (4 * s)) true true true a pear 2 >>= λ b.
    hm_remove b apple >>= λ out. hm_get out.1 apple)
    ≡ ok none
unfolding hm_init hm_put hm_get hm_remove hm_rehash rehash_loop move_chain bucket_idx chain_get
    chain_update chain_remove fnv1a hash_loop_32 load store same_string
removed_missing = refl

-- Without memory for the new buckets the first move writes through NULL.
no_memory :
    (hm_put (λ s c. ltb (3 * c) (4 * s)) true true true fresh apple 1 >>= λ a.
    hm_put (λ s c. ltb (3 * c) (4 * s)) false true true a pear 2)
    ≡ fault
unfolding hm_init hm_put hm_rehash rehash_loop move_chain bucket_idx chain_update fnv1a hash_loop_32
    load store
no_memory = refl

hm_put-Put_example :
    Returns (Put fresh apple 1) (hm_put (λ s c. ltb (3 * c) (4 * s)) true true true fresh apple 1)
unfolding hm_init
hm_put-Put_example =
    hm_put-Put (λ s c. ltb (3 * c) (4 * s)) fresh apple 1 fresh-IsTable (omega arith) (omega arith)

hm_remove-Removed_example : Returns (Removed fresh apple) (hm_remove fresh apple)
hm_remove-Removed_example = hm_remove-Removed fresh apple fresh-IsTable
