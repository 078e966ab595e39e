-- ===== src/Pool/Reached.antt =====
-- The pools that a program reaches when it frees only slots that it holds.
use mathlib.Core.List.{Mem, mem-append_right, perm_middle, Nodup-cons}
use mathlib.Core.List.Perm
use textbook_c_ds_deep.Prelude.{
  ℕ, suc, ◌*◌, ◌^◌, ◌<◌, ◌≡◌, ◌∙◌, Option, none, some, List, [], ◌∷◌, ◌++◌, arith, length, set,
  length-append,
}
use textbook_c_ds_deep.Run.{Run, ok, Returns, returns, weaken, outcome}
use textbook_c_ds_deep.Memory.{Memory}
use textbook_c_ds_deep.FreeList.{Cell}
use textbook_c_ds_deep.Pool.{PoolAllocator, slot_size, pool_init, pool_alloc, pool_free}
use textbook_c_ds_deep.Pool.Slots.{
  Holds, Allocated, pool_alloc-Allocated, write-Holds, pool_free-Holds,
}
use textbook_c_ds_deep.Pool.Start.{slots_from, pool_init-Started}

-- `live` are the slots that the program holds, and may write what it wants to.
pub data Reached : PoolAllocator → List ℕ → Type 0 where
  start :
      (memory : Memory Cell) (obj_size capacity : ℕ) (b : List Cell) (pool : PoolAllocator)
      → 0 < capacity
      → capacity < 2 ^ 60
      → capacity * slot_size obj_size < 2 ^ 64
      → memory.malloc capacity ≡ some b
      → pool_init memory obj_size capacity ≡ ok (some pool)
      → Reached pool []
  alloc :
      (pool pool' : PoolAllocator) (live : List ℕ) (i : ℕ)
      → Reached pool live
      → pool_alloc pool ≡ ok (some i, pool')
      → Reached pool' (i ∷ live)
  release :
      (pool pool' : PoolAllocator) (before after : List ℕ) (i : ℕ)
      → Reached pool (before ++ i ∷ after)
      → pool_free pool (some i) ≡ ok pool'
      → Reached pool' (before ++ after)
  write :
      (pool : PoolAllocator) (live : List ℕ) (i : ℕ) (c : Cell)
      → Reached pool live
      → Mem i live
      → Reached (record pool { memory = set pool.memory i c }) live

Holds-middle :
    (pool : PoolAllocator) (free before after : List ℕ) (i : ℕ)
    → Holds pool free (before ++ i ∷ after)
    → Holds pool free (i ∷ (before ++ after))
Holds-middle pool free before after i h =
    let lengths : length (before ++ i ∷ after) ≡ suc (length (before ++ after)) =
      omega (arith, length-append before (i ∷ after), length-append before after) in
    record {
      chain = h.chain;
      block = h.block;
      distinct = Perm.nodup (Perm.append_left free (perm_middle before after)) h.distinct;
      inside = λ j m. h.inside j ((Perm.mem_iff (perm_middle before after)).1 m);
      counted = h.counted ∙ lengths;
      total = omega (arith, h.total, lengths);
      small = h.small;
    }

-- What is shown of a call holds of what it returned.
of_returns {ℓ κ} : {A : Type ℓ} (P : A → Type κ) {m : Run A} (a : A) → Returns P m → m ≡ ok a → P a
of_returns P a r e = let (b, e', p) = outcome r in let same : b ≡ a = cc in rw same at p

taken-Holds :
    (pool pool' : PoolAllocator) (free live : List ℕ) (i : ℕ)
    → Allocated pool free live (some i, pool')
    → (rest : List ℕ) × Holds pool' rest (i ∷ live)
unfolding Allocated
taken-Holds pool pool' [] live i (bad, same) = absurd cc
taken-Holds pool pool' (k ∷ free) live i (e, lt, same, h) =
    let is_i : k ≡ i = cc in (free, rw is_i at h)

pub Reached-Holds :
    (pool : PoolAllocator) (live : List ℕ)
    → Reached pool live
    → (free : List ℕ) × Holds pool free live
unfolding Allocated
Reached-Holds _ _ (start memory obj_size capacity b pool full small fits found e) =
    let (same, h) =
      of_returns _ (some pool) (pool_init-Started memory obj_size capacity b full small fits found)
        e in
    (slots_from capacity 0, h)
Reached-Holds _ _ (alloc pool pool' live i r e) =
    let (free, h) = Reached-Holds pool live r in
    taken-Holds pool pool' free live i
      (of_returns _ (some i, pool') (pool_alloc-Allocated pool free live h) e)
Reached-Holds _ _ (release pool pool' before after i r e) =
    let (free, h) = Reached-Holds pool (before ++ i ∷ after) r in
    let moved = Holds-middle pool free before after i h in
    (i ∷ free, (of_returns _ pool' (pool_free-Holds pool i free (before ++ after) moved) e).holds)
Reached-Holds _ _ (write pool live i c r m) =
    let (free, h) = Reached-Holds pool live r in (free, write-Holds pool free live i c h m)

-- What an allocation gives: NULL where the program holds every slot, or a slot that it does not hold.
pub Fresh : PoolAllocator → List ℕ → Option ℕ × PoolAllocator → Type 0
Fresh pool live (none, pool') = (length live ≡ pool.capacity) × (pool' ≡ pool)
Fresh pool live (some i, pool') = (i < pool.capacity) × (¬ (Mem i live)) × Reached pool' (i ∷ live)

Allocated-Fresh :
    (pool : PoolAllocator) (free live : List ℕ) (out : Option ℕ × PoolAllocator)
    → Reached pool live
    → Holds pool free live
    → pool_alloc pool ≡ ok out
    → Allocated pool free live out
    → Fresh pool live out
unfolding Allocated Fresh
Allocated-Fresh pool [] live (none, pool') r h e (_, same) = (omega (arith, h.total), same)
Allocated-Fresh pool [] live (some i, pool') r h e (bad, _) = absurd cc
Allocated-Fresh pool (k ∷ free) live (none, pool') r h e (bad, _, _, _) = absurd cc
Allocated-Fresh pool (k ∷ free) live (some i, pool') r h e (is_k, lt, _, _) =
    let same : i ≡ k = cc in
    let (fresh, _) = Nodup-cons.0 h.distinct in
    (rw same lt, λ m. fresh (mem-append_right free (rw same at m)), alloc pool pool' live i r e)

-- For every pool that is reached by allocations, frees of slots held and writes to slots held,
-- `pool_alloc` returns. It gives NULL where the program holds as many
-- slots as the pool has, and otherwise a slot of the pool that the program does not hold.
pub pool_alloc-Fresh :
    (pool : PoolAllocator) (live : List ℕ)
    → Reached pool live
    → Returns (Fresh pool live) (pool_alloc pool)
pool_alloc-Fresh pool live r =
    let (free, h) = Reached-Holds pool live r in
    let (out, e, done) = outcome (pool_alloc-Allocated pool free live h) in
    rw e (returns (Allocated-Fresh pool free live out r h e done))

-- What freeing a slot leaves: the program holds the other slots, as many as the pool counts, and the
-- next allocation gives the slot again.
pub record Released (pool : PoolAllocator) (live : List ℕ) (i : ℕ) (pool' : PoolAllocator)
    : Type 0 where
  pub reached : Reached pool' live
  pub counted : pool'.allocated ≡ length live
  pub same_capacity : pool'.capacity ≡ pool.capacity
  pub next : Returns (λ out. out.0 ≡ some i) (pool_alloc pool')

again :
    (pool : PoolAllocator) (i : ℕ) (free used : List ℕ)
    → Holds pool (i ∷ free) used
    → Returns (λ out. out.0 ≡ some i) (pool_alloc pool)
unfolding Allocated
again pool i free used h = weaken (pool_alloc-Allocated pool (i ∷ free) used h) λ out a. a.0

-- For every pool that is reached, `pool_free` of a slot that the program holds returns. The pool is
-- reached without the slot and counts one slot fewer, and the next allocation gives that slot.
pub pool_free-Reached :
    (pool : PoolAllocator) (before after : List ℕ) (i : ℕ)
    → Reached pool (before ++ i ∷ after)
    → Returns (Released pool (before ++ after) i) (pool_free pool (some i))
pool_free-Reached pool before after i r =
    let (free, h) = Reached-Holds pool (before ++ i ∷ after) r in
    let moved = Holds-middle pool free before after i h in
    let (pool', e, done) = outcome (pool_free-Holds pool i free (before ++ after) moved) in
    rw e (
      returns (record {
        reached = release pool pool' before after i r e;
        counted = done.holds.counted;
        same_capacity = done.same_capacity;
        next = again pool' i free (before ++ after) done.holds;
      }))
