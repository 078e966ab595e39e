-- ===== src/DynamicArray.antt =====
-- dynamic_array.c: a growable array of ints that counts the elements it copied. An int element is a
-- cell; the sizes and the count are ints that are never negative.
pub mod Amortised
use textbook_c_ds_deep.Prelude.{
  ℕ, ◌+◌, ◌*◌, List, leb, ◌&&◌, ◌++◌, ◌==◌, if◌then◌else◌, length, take, drop,
}
use textbook_c_ds_deep.Run.{Run, ok, fault, ◌>>=◌, int_result}
use textbook_c_ds_deep.Memory.{Memory, or_null}
use textbook_c_ds_deep.Array.{store}

-- `data` is a word of the language: the block is `data_`.
pub record DynArray : Type 0 where
  pub data_ : List ℕ
  pub size : ℕ
  pub capacity : ℕ
  pub total_copies : ℕ

-- `memcpy(dst, src, n)`
unfoldable pub memcpy : List ℕ → List ℕ → ℕ → Run (List ℕ)
memcpy dst src n =
    if leb n (length dst) && leb n (length src) then ok (take n src ++ drop n dst) else fault

module _ (memory : Memory ℕ) where
  unfoldable pub da_init : DynArray
  da_init = record { data_ = or_null (memory.malloc 1); size = 0; capacity = 1; total_copies = 0 }

  -- The branch of `da_push` for a full block.
  unfoldable pub da_grow : DynArray → Run DynArray
  unfolding memcpy
  da_grow a = do
    new_cap ← int_result (a.capacity * 2)
    new_data ← memcpy (or_null (memory.malloc new_cap)) a.data_ a.size
    copies ← int_result (a.total_copies + a.size)
    ok (record a { data_ = new_data; capacity = new_cap; total_copies = copies })

  unfoldable pub da_push : DynArray → ℕ → Run DynArray
  unfolding da_grow
  da_push a val =
      let room = if a.size == a.capacity then da_grow a else ok a in
      room >>= λ b. store b.data_ b.size val >>= λ cells.
      int_result (b.size + 1) >>= λ size. ok (record b { data_ = cells; size = size })
