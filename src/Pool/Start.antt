-- ===== src/Pool/Start.antt =====
-- `pool_init` links all slots.
use mathlib.Core.List.{Mem, not-mem-nil, forall_mem-cons, Nodup, Nodup-cons, Nodup-nil, append-nil}
use native.Mathlib.Bridge.{le_prop}
use textbook_c_ds_deep.Prelude.{
  ℕ, zero, suc, ◌+◌, ◌*◌, ◌^◌, ◌≤◌, ◌<◌, ◌≡◌, refl, ap, ◌∙◌, inl, inr, Option, none, some, List, [],
  ◌∷◌, arith, length, set, length-set, ◌==◌, ltb, leb, ◌&&◌, if◌then◌else◌, true, false, Bool-cases,
  dec64,
}
use textbook_c_ds_deep.Run.{Returns, returns, bind, weaken}
use textbook_c_ds_deep.Memory.{Memory, cells, cells_fit}
use textbook_c_ds_deep.Array.{at, at-set, store-ok}
use textbook_c_ds_deep.FreeList.{Cell, link, cell_default}
use textbook_c_ds_deep.FreeList.Chain.{Chain, ends, slot}
use textbook_c_ds_deep.Pool.{PoolAllocator, link_loop, slot_size, pool_init}
use textbook_c_ds_deep.Pool.Slots.{Holds}

-- `k` slots from `i` on.
pub slots_from : ℕ → ℕ → List ℕ
slots_from zero i = []
slots_from (suc k) i = i ∷ slots_from k (i + 1)

length-slots_from : (k i : ℕ) → length (slots_from k i) ≡ k
unfolding slots_from
length-slots_from zero i = refl
length-slots_from (suc k) i = ap suc (length-slots_from k (i + 1))

slots_from_after : (k i : ℕ) → (x : ℕ) → Mem x (slots_from k i) → i ≤ x
unfolding slots_from
slots_from_after zero i = λ x m. absurd (not-mem-nil m)
slots_from_after (suc k) i =
    (forall_mem-cons (λ x. le_prop)).1
      (omega arith, λ x m. let after = slots_from_after k (i + 1) x m in omega (arith, after))

slots_from-Nodup : (k i : ℕ) → Nodup (slots_from k i)
unfolding slots_from
slots_from-Nodup zero i = Nodup-nil
slots_from-Nodup (suc k) i = Nodup-cons.1 (
  λ m. let after = slots_from_after k (i + 1) i m in absurd (omega (arith, after)),
  slots_from-Nodup k (i + 1),
)

-- What `rounds` rounds from `i` on write.
Linked : ℕ → ℕ → List Cell → List Cell → Type 0
Linked rounds i a b =
    (length b ≡ length a)
    × ((j : ℕ) → at b j ≡ (if leb i j && ltb j (i + rounds) then link (some (j + 1)) else at a j))

linked_cells :
    (rounds i : ℕ) (a : List Cell) (j : ℕ)
    → i < length a
    → (if leb (i + 1) j && ltb j (i + 1 + rounds)
        then link (some (j + 1))
        else at (set a i (link (some (i + 1)))) j)
      ≡ (if leb i j && ltb j (i + suc rounds) then link (some (j + 1)) else at a j)
linked_cells rounds i a j h = elim (Bool-cases (i == j)) [
  | inl same ↦
      let e : i ≡ j = ground arith in
      let now : (leb i j && ltb j (i + suc rounds)) ≡ true = ground arith in
      let later : (leb (i + 1) j && ltb j (i + 1 + rounds)) ≡ false = ground arith in
      rw (now, later, at-set a i j (link (some (i + 1))) h, same) (ap (λ x. link (some (x + 1))) e)
  | inr other ↦
      let same_range : (leb (i + 1) j && ltb j (i + 1 + rounds))
          ≡ (leb i j && ltb j (i + suc rounds)) =
        ground arith in
      rw (same_range, at-set a i j (link (some (i + 1))) h, other) refl
]

link_loop-Linked :
    (rounds i : ℕ) (a : List Cell)
    → i + rounds ≤ length a
    → Returns (Linked rounds i a) (link_loop rounds i a)
unfolding link_loop Linked
link_loop-Linked zero i a h =
    returns (
      refl,
      λ j. let outside : (leb i j && ltb j (i + 0)) ≡ false = ground arith in rw outside refl,
    )
link_loop-Linked (suc rounds) i a h =
    let b = set a i (link (some (i + 1))) in
    let same = length-set a i (link (some (i + 1))) in
    rw (store-ok a i (link (some (i + 1))) (omega (arith, h))) (
      weaken (link_loop-Linked rounds (i + 1) b (omega (arith, same, h)))
        λ c l. (l.0 ∙ same, λ j. l.1 j ∙ linked_cells rounds i a j (omega (arith, h))))

Chain-from :
    (a : List Cell) (n : ℕ)
    → length a ≡ n
    → ((j : ℕ) → j + 1 < n → at a j ≡ link (some (j + 1)))
    → ((j : ℕ) → j + 1 ≡ n → at a j ≡ link none)
    → (k i : ℕ) → i + suc k ≡ n
    → Chain a (some i) (slots_from (suc k) i)
unfolding slots_from
Chain-from a n block links last zero i total =
    slot i none [] (omega (arith, block)) (last i (omega arith)) ends
Chain-from a n block links last (suc k) i total =
    slot i (some (i + 1)) (slots_from (suc k) (i + 1)) (omega (arith, block))
      (links i (omega arith)) (Chain-from a n block links last k (i + 1) (omega arith))

started_Holds :
    (m : ℕ) (c : List Cell) (size : ℕ) (b : List Cell)
    → length c ≡ suc m
    → suc m < 2 ^ 60
    → ((j : ℕ) → at c j ≡ (if leb 0 j && ltb j (0 + m) then link (some (j + 1)) else at b j))
    → Holds
        (record {
          memory = set c m (link none);
          free_list = some 0;
          obj_size = size;
          capacity = suc m;
          allocated = 0;
        })
        (slots_from (suc m) 0)
        []
started_Holds m c size b block small cells_ =
    let a = set c m (link none) in
    let here : m < length c = omega (arith, block) in
    record {
      chain =
          Chain-from a (suc m) (length-set c m (link none) ∙ block)
            (λ j p.
              let differs : (m == j) ≡ false = ground arith in
              let range : (leb 0 j && ltb j (0 + m)) ≡ true = ground arith in
              at-set c m j (link none) here ∙ rw (differs, cells_ j, range) refl)
            (λ j p.
              let same : (m == j) ≡ true = ground arith in
              at-set c m j (link none) here ∙ rw same refl)
            m 0 (omega arith);
      block = length-set c m (link none) ∙ block;
      distinct = rw (append-nil (slots_from (suc m) 0)) (slots_from-Nodup (suc m) 0);
      inside = λ i q. absurd (not-mem-nil q);
      counted = refl;
      total = omega (arith, length-slots_from (suc m) 0);
      small = small;
    }

-- What the initialisation leaves: all slots free.
abbrev pub Started : ℕ → Option PoolAllocator → Type 0
Started capacity none = ⊥
Started capacity (some pool) = (pool.capacity ≡ capacity) × Holds pool (slots_from capacity 0) []

pub pool_init-Started :
    (memory : Memory Cell) (obj_size capacity : ℕ) (b : List Cell)
    → 0 < capacity
    → capacity < 2 ^ 60
    → capacity * slot_size obj_size < 2 ^ 64
    → memory.malloc capacity ≡ some b
    → Returns (Started capacity) (pool_init memory obj_size capacity)
unfolding pool_init Linked
pool_init-Started memory obj_size zero b full small fits found = absurd (omega arith)
pool_init-Started memory obj_size (suc m) b full small fits found =
    let unit : 0 < slot_size obj_size = ground arith in
    let room : cells (suc m) (slot_size obj_size) ≡ suc m =
      cells_fit (suc m) (slot_size obj_size) unit fits in
    let block = memory.malloc_length (suc m) b found in
    let last : dec64 (suc m) ≡ m = ground arith in
    rw (pool_init, room, found, last)
      (bind (link_loop-Linked m 0 b (omega (arith, block))) λ c l.
        rw (store-ok c m (link none) (omega (arith, block, l.0))) (
          returns
            (refl, started_Holds m c (slot_size obj_size) b (omega (arith, block, l.0)) small l.1)))
