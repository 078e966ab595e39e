-- ===== src/OpenAddressing.antt =====
-- hash_open_addressing.c: a hash table with open addressing, three probe methods and tombstones.
pub mod Scan
pub mod Land
pub mod Look
pub mod Kept
pub mod Put
use Prim.Native.Nat.{bit_xor, bit_or}
use textbook_c_ds_deep.Prelude.{
  ℕ, zero, suc, ◌+◌, ◌-◌, ◌*◌, ◌/◌, ◌%◌, ◌^◌, ◌<◌, ◌≡◌, Bool, true, false, Option, none, some, List,
  [], ◌∷◌, leb, if◌then◌else◌, length, replicate, same_string,
}
use textbook_c_ds_deep.Run.{Run, ok, ◌>>=◌}
use textbook_c_ds_deep.Array.{Default, at, load, store}

-- MAX_SIZE
abbrev pub max_size : ℕ
max_size = 64

pub data ProbeMethod : Type 0 where
  linear quadratic double : ProbeMethod

-- What the key pointer says: NULL, TOMBSTONE, or a string. The value is the int plus 2 ^ 31; it is
-- not read in the first two cases.
pub data Slot : Type 0 where
  empty : Slot
  tombstone : Slot
  used : List ℕ → ℕ → Slot

instance abbrev pub slot_default : Default Slot
slot_default = record { value = empty }

pub record OaHashMap : Type 0 where
  pub slots : List Slot
  pub size : ℕ
  pub capacity : ℕ
  pub method : ProbeMethod

-- The loops of `h1` and `h2` over the bytes of the key.
unfoldable pub fnv_loop : ℕ → List ℕ → ℕ
fnv_loop hash [] = hash
fnv_loop hash (c ∷ key) = fnv_loop (bit_xor hash c * 16777619 % 2 ^ 32) key

unfoldable pub h1 : List ℕ → ℕ
unfolding fnv_loop
h1 key = fnv_loop 2166136261 key

pub h2_loop : ℕ → List ℕ → ℕ
h2_loop hash [] = hash
h2_loop hash (c ∷ key) = h2_loop ((hash * 31 + c) % 2 ^ 32) key

unfoldable pub h2 : List ℕ → ℕ
unfolding h2_loop
h2 key = bit_or (31 - h2_loop 0 key % 31) 1

-- Arithmetic on `uint32_t`; `i` is below `capacity`, so `i * i` does not overflow.
unfoldable pub probe : OaHashMap → List ℕ → ℕ → ℕ
unfolding h1 h2
probe hm key i =
    let base = h1 key % hm.capacity in
    elim hm.method [
      | linear ↦ (base + i) % 2 ^ 32 % hm.capacity
      | quadratic ↦ (base + i * i) % 2 ^ 32 % hm.capacity
      | double ↦ (base + i * h2 key) % 2 ^ 32 % hm.capacity
    ]

unfoldable pub oa_init : ProbeMethod → OaHashMap
oa_init method = record {
  slots = replicate max_size empty;
  size = 0;
  capacity = max_size;
  method = method;
}

-- The loop of `oa_get` from probe `i` on, with `rounds` rounds left; the result is what the
-- returned pointer points to.
pub get_loop : ℕ → ℕ → OaHashMap → List ℕ → Run (Option ℕ)
get_loop zero i hm key = ok none
get_loop (suc rounds) i hm key =
    let rest = get_loop rounds (i + 1) hm key in
    load hm.slots (probe hm key i) >>= λ slot. elim slot [
      | empty ↦ ok none
      | tombstone ↦ rest
      | used k v ↦ if same_string k key then ok (some v) else rest
    ]

unfoldable pub oa_get : OaHashMap → List ℕ → Run (Option ℕ)
unfolding get_loop
oa_get hm key = get_loop hm.capacity 0 hm key

-- `strdup` finds memory for the copy of the key, or it returns NULL, which the code stores.
pub copied : (found : Bool) → List ℕ → ℕ → Slot
copied found key value = if found then used key value else empty

-- The loop of `oa_put`.
pub put_loop : ℕ → ℕ → OaHashMap → List ℕ → ℕ → (found : Bool) → Run (Bool × OaHashMap)
unfolding copied
put_loop zero i hm key value found = ok (false, hm)
put_loop (suc rounds) i hm key value found =
    let rest = put_loop rounds (i + 1) hm key value found in
    let idx = probe hm key i in
    let fill : Run (Bool × OaHashMap) = do
      a ← store hm.slots idx (copied found key value)
      ok (true, record hm { slots = a; size = hm.size + 1 })
    in load hm.slots idx >>= λ slot. elim slot [
      | empty ↦ fill
      | tombstone ↦ fill
      | used k v ↦
          let update : Run (Bool × OaHashMap) = do
            a ← store hm.slots idx (used k value)
            ok (true, record hm { slots = a })
          in if same_string k key then update else rest
    ]

unfoldable pub oa_put : OaHashMap → List ℕ → ℕ → (found : Bool) → Run (Bool × OaHashMap)
unfolding put_loop
oa_put hm key value found =
    let placed = put_loop hm.capacity 0 hm key value found in
    if leb (hm.capacity * 2 / 3) hm.size then ok (false, hm) else placed

-- The loop of `oa_remove`.
pub remove_loop : ℕ → ℕ → OaHashMap → List ℕ → Run (Bool × OaHashMap)
remove_loop zero i hm key = ok (false, hm)
remove_loop (suc rounds) i hm key =
    let rest = remove_loop rounds (i + 1) hm key in
    let idx = probe hm key i in
    load hm.slots idx >>= λ slot. elim slot [
      | empty ↦ ok (false, hm)
      | tombstone ↦ rest
      | used k v ↦
          let bury : Run (Bool × OaHashMap) = do
            a ← store hm.slots idx tombstone
            ok (true, record hm { slots = a; size = hm.size - 1 })
          in if same_string k key then bury else rest
    ]

unfoldable pub oa_remove : OaHashMap → List ℕ → Run (Bool × OaHashMap)
unfolding remove_loop
oa_remove hm key = remove_loop hm.capacity 0 hm key

-- The slot at probe `i` of a key, for statements.
abbrev pub cell : OaHashMap → List ℕ → ℕ → Slot
cell hm key i = at hm.slots (probe hm key i)

-- The table that `oa_init` makes and the operations keep: a key that stands behind an empty slot of
-- its probe path stands before it, too.
pub record IsValid (hm : OaHashMap) : Type 0 where
  pub block : length hm.slots ≡ max_size
  pub whole : hm.capacity ≡ max_size
  pub path :
      (key : List ℕ) (i j v : ℕ)
      → i < j
      → cell hm key i ≡ empty
      → cell hm key j ≡ used key v
      → (k : ℕ) × (w : ℕ) × (k < i) × (cell hm key k ≡ used key w)
