-- ===== src/Pool/Slots.antt =====
-- Which slots of a pool are free and which are handed out.
use mathlib.Core.List.{
  Mem, mem-cons_self, mem-cons_of_mem, forall_mem-cons, Nodup, Nodup-cons, Nodup-append,
  perm_middle, mem-append_left,
}
use mathlib.Core.List.Perm
use native.Mathlib.Bridge.{le_prop}
use textbook_c_ds_deep.Prelude.{
  ℕ, ◌+◌, ◌^◌, ◌<◌, ◌≡◌, refl, ◌∙◌, Option, none, some, List, [], ◌∷◌, ◌++◌, arith, length, set,
  length-set, ◌==◌, true,
}
use textbook_c_ds_deep.Run.{Returns, returns}
use textbook_c_ds_deep.Array.{at-set, store-ok}
use textbook_c_ds_deep.FreeList.{Cell, link, filled, cell_default}
use textbook_c_ds_deep.FreeList.Chain.{Chain, slot, Chain-nil, Chain-cons, next_of-ok, Chain-set}
use textbook_c_ds_deep.Pool.{PoolAllocator, pool_alloc, pool_free}

-- `free` is the list of the free slots, `used` the slots that are handed out.
pub record Holds (pool : PoolAllocator) (free used : List ℕ) : Type 0 where
  pub chain : Chain pool.memory pool.free_list free
  pub block : length pool.memory ≡ pool.capacity
  pub distinct : Nodup (free ++ used)
  pub inside : (i : ℕ) → Mem i used → i < pool.capacity
  pub counted : pool.allocated ≡ length used
  pub total : length free + length used ≡ pool.capacity
  pub small : pool.capacity < 2 ^ 60

-- What an allocation gives: NULL when no slot is free, or the first of them.
unfoldable pub Allocated : PoolAllocator → List ℕ → List ℕ → Option ℕ × PoolAllocator → Type 0
Allocated pool [] used (out, pool') = (out ≡ none) × (pool' ≡ pool)
Allocated pool (i ∷ free) used (out, pool') =
    (out ≡ some i)
    × (i < pool.capacity)
    × (pool'.capacity ≡ pool.capacity)
    × Holds pool' free (i ∷ used)

pub pool_alloc-Allocated :
    (pool : PoolAllocator) (free used : List ℕ)
    → Holds pool free used
    → Returns (Allocated pool free used) (pool_alloc pool)
unfolding pool_alloc Allocated
pool_alloc-Allocated pool [] used h =
    rw (Chain-nil pool.memory pool.free_list h.chain) (returns (refl, refl))
pool_alloc-Allocated pool (i ∷ free) used h =
    let (next, head, lt, e, rest) = Chain-cons pool.memory pool.free_list i free h.chain in
    let a = set pool.memory i (filled 0xAB) in
    let (fresh, others) = Nodup-cons.0 h.distinct in
    let out : ¬ (Mem i free) = λ m. fresh (mem-append_left used m) in
    let below : i < pool.capacity = omega (arith, lt, h.block) in
    rw (head, next_of-ok pool.memory i next lt e, store-ok pool.memory i (filled 0xAB) lt)
      (returns (
        refl,
        below,
        refl,
        record {
          chain = Chain-set pool.memory next free i (filled 0xAB) rest lt out;
          block = length-set pool.memory i (filled 0xAB) ∙ h.block;
          distinct = Perm.nodup (Perm.symm (perm_middle free used)) h.distinct;
          inside = (forall_mem-cons (λ x. le_prop)).1 (below, h.inside);
          counted = ground (arith, h.counted, h.total, h.small);
          total = omega (arith, h.total);
          small = h.small;
        },
      ))

apart_halves : (xs ys : List ℕ) (i : ℕ) → Nodup (xs ++ ys) → Mem i xs → ¬ (Mem i ys)
apart_halves xs ys i d m n = (Nodup-append.0 d).2 i m n

-- Writing to a slot that is handed out changes neither list.
pub write-Holds :
    (pool : PoolAllocator) (free used : List ℕ) (i : ℕ) (c : Cell)
    → Holds pool free used
    → Mem i used
    → Holds (record pool { memory = set pool.memory i c }) free used
write-Holds pool free used i c h m = record {
  chain =
      Chain-set pool.memory pool.free_list free i c h.chain (rw h.block (h.inside i m))
        (λ f. apart_halves free used i h.distinct f m);
  block = length-set pool.memory i c ∙ h.block;
  distinct = h.distinct;
  inside = h.inside;
  counted = h.counted;
  total = h.total;
  small = h.small;
}

-- What a free of a slot leaves: its slot is the next to go, and the others are handed out.
pub record Freed (pool : PoolAllocator) (obj : ℕ) (free used : List ℕ) (pool' : PoolAllocator)
    : Type 0 where
  pub holds : Holds pool' (obj ∷ free) used
  pub same_capacity : pool'.capacity ≡ pool.capacity

pub pool_free-Holds :
    (pool : PoolAllocator) (obj : ℕ) (free used : List ℕ)
    → Holds pool free (obj ∷ used)
    → Returns (Freed pool obj free used) (pool_free pool (some obj))
unfolding pool_free
pool_free-Holds pool obj free used h =
    let inside : obj < length pool.memory = rw h.block (h.inside obj mem-cons_self) in
    let a = set pool.memory obj (filled 0xCD) in
    let inside' : obj < length a = rw (length-set pool.memory obj (filled 0xCD)) inside in
    let self : (obj == obj) ≡ true = ground arith in
    let moved : Nodup (obj ∷ (free ++ used)) = Perm.nodup (perm_middle free used) h.distinct in
    let fresh : ¬ (Mem obj free) = λ m. (Nodup-cons.0 moved).0 (mem-append_left used m) in
    rw (store-ok pool.memory obj (filled 0xCD) inside, store-ok a obj (link pool.free_list) inside')
      (returns (record {
        same_capacity = refl;
        holds = record {
          chain =
              slot obj pool.free_list free (rw (length-set a obj (link pool.free_list)) inside')
                (at-set a obj obj (link pool.free_list) inside' ∙ rw self refl)
                (Chain-set a pool.free_list free obj (link pool.free_list)
                  (Chain-set pool.memory pool.free_list free obj (filled 0xCD) h.chain inside fresh)
                  inside' fresh);
          block =
              length-set a obj (link pool.free_list)
              ∙ length-set pool.memory obj (filled 0xCD)
              ∙ h.block;
          distinct = moved;
          inside = λ i m. h.inside i (mem-cons_of_mem obj m);
          counted = ground (arith, h.counted, h.total, h.small);
          total = omega (arith, h.total);
          small = h.small;
        };
      }))
