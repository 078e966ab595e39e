-- ===== src/Chaining.antt =====
-- hash_chaining.c: a hash table of chains, which doubles its buckets above a load factor. A chain is
-- the list of its entries. A block that calloc does not find has no cells, so that every access to
-- it is a fault. `exceeds` is the comparison of floats, `(float)size / bucket_count >
-- load_factor_limit`, which belongs to the compiler; the limit is set once.
pub mod View
pub mod Move
pub mod Chains
pub mod Methods
use textbook_c_ds_deep.Prelude.{
  ℕ, zero, suc, ◌+◌, ◌-◌, ◌*◌, ◌%◌, Bool, true, false, Option, none, some, List, [], ◌∷◌, ◌==◌,
  if◌then◌else◌, replicate, same_string,
}
use textbook_c_ds_deep.Run.{Run, ok, fault, ◌>>=◌, check, int_result}
use textbook_c_ds_deep.Array.{Default, load, store}
use textbook_c_ds_deep.HashFunctions.{fnv_offset_32, hash_loop_32}

-- The copy of hash_functions.c: the bytes of the string, up to its final 0.
unfoldable pub fnv1a : List ℕ → ℕ
fnv1a key = hash_loop_32 fnv_offset_32 key

-- `key` is what strdup returned, NULL included. The value is an int, as its value plus 2 ^ 31.
pub record Entry : Type 0 where
  pub key : Option (List ℕ)
  pub value : ℕ

instance abbrev pub chain_default : Default (List Entry)
chain_default = record { value = [] }

pub record HashMap : Type 0 where
  pub buckets : List (List Entry)
  pub bucket_count : ℕ
  pub size : ℕ

-- What calloc returns, if it finds memory.
abbrev pub empty_buckets : (found : Bool) → ℕ → List (List Entry)
empty_buckets found n = if found then replicate n [] else []

unfoldable pub hm_init : (found : Bool) → ℕ → HashMap
hm_init found bucket_count = record {
  buckets = empty_buckets found bucket_count;
  bucket_count = bucket_count;
  size = 0;
}

-- A remainder by 0 is undefined.
unfoldable pub bucket_idx : HashMap → List ℕ → Run ℕ
bucket_idx hm key = if hm.bucket_count == 0 then fault else ok (fnv1a key % hm.bucket_count)

-- The loop of `hm_get`; the result is what the returned pointer points to.
unfoldable pub chain_get : List Entry → List ℕ → Run (Option ℕ)
chain_get [] key = ok none
chain_get (cur ∷ rest) key =
    let later = chain_get rest key in
    check cur.key >>= λ k. if same_string k key then ok (some cur.value) else later

unfoldable pub hm_get : HashMap → List ℕ → Run (Option ℕ)
hm_get hm key = do idx ← bucket_idx hm key; chain ← load hm.buckets idx; chain_get chain key

-- The inner loop of `hm_rehash`.
unfoldable pub move_chain : List Entry → ℕ → List (List Entry) → Run (List (List Entry))
move_chain [] new_count new_buckets = ok new_buckets
move_chain (cur ∷ rest) new_count new_buckets = do
  k ← check cur.key
  head ← load new_buckets (fnv1a k % new_count)
  moved ← store new_buckets (fnv1a k % new_count) (cur ∷ head)
  move_chain rest new_count moved

-- The outer loop, with `rounds` rounds left.
unfoldable pub rehash_loop :
    ℕ → ℕ → List (List Entry) → ℕ → List (List Entry) → Run (List (List Entry))
rehash_loop zero i buckets new_count new_buckets = ok new_buckets
rehash_loop (suc rounds) i buckets new_count new_buckets = do
  chain ← load buckets i
  moved ← move_chain chain new_count new_buckets
  rehash_loop rounds (i + 1) buckets new_count moved

unfoldable pub hm_rehash : (found : Bool) → HashMap → Run HashMap
hm_rehash found hm = do
  new_count ← int_result (hm.bucket_count * 2)
  moved ← rehash_loop hm.bucket_count 0 hm.buckets new_count (empty_buckets found new_count)
  ok (record hm { buckets = moved; bucket_count = new_count })

-- The loop of `hm_put`: the chain with the new value, if the key is there.
unfoldable pub chain_update : List Entry → List ℕ → ℕ → Run (Option (List Entry))
chain_update [] key value = ok none
chain_update (cur ∷ rest) key value =
    let later : Run (Option (List Entry)) = chain_update rest key value >>= λ r. elim r [
      | none ↦ ok none
      | some c ↦ ok (some (cur ∷ c))
    ] in
    check cur.key >>= λ k.
    if same_string k key then ok (some (record cur { value = value } ∷ rest)) else later

-- `entry` and `copy` say whether malloc and strdup find memory, `found` whether calloc does.
unfoldable pub hm_put :
    (exceeds : ℕ → ℕ → Bool) (found entry copy : Bool) → HashMap → List ℕ → ℕ → Run HashMap
hm_put exceeds found entry copy hm key value =
    let room = if exceeds hm.size hm.bucket_count then hm_rehash found hm else ok hm in
    room >>= λ grown. bucket_idx grown key >>= λ idx. load grown.buckets idx >>= λ chain.
    chain_update chain key value >>= λ r. elim r [
      | some c ↦ store grown.buckets idx c >>= λ b. ok (record grown { buckets = b })
      | none ↦
          let e : Entry = record { key = if copy then some key else none; value = value } in
          let added : Run HashMap = store grown.buckets idx (e ∷ chain) >>= λ b.
          int_result (grown.size + 1) >>= λ size. ok (record grown { buckets = b; size = size }) in
          if entry then added else fault
    ]

-- The loop of `hm_remove`: the chain without the entry of the key.
unfoldable pub chain_remove : List Entry → List ℕ → Run (Option (List Entry))
chain_remove [] key = ok none
chain_remove (cur ∷ rest) key =
    let later : Run (Option (List Entry)) =
      chain_remove rest key >>= λ r. elim r [ none ↦ ok none | some c ↦ ok (some (cur ∷ c)) ] in
    check cur.key >>= λ k. if same_string k key then ok (some rest) else later

-- A table with an entry has a size above 0, so that the int does not fall below 0.
unfoldable pub hm_remove : HashMap → List ℕ → Run (Bool × HashMap)
hm_remove hm key = do
  idx ← bucket_idx hm key
  chain ← load hm.buckets idx
  r ← chain_remove chain key
  elim r [
    | none ↦ ok (false, hm)
    | some c ↦
        store hm.buckets idx c >>= λ b. ok (true, record hm { buckets = b; size = hm.size - 1 })
  ]
