-- ===== src/FreeList.antt =====
-- The list of free slots that pool_allocator.c and embedded_pool.c keep inside the slots: the first
-- word of a free slot is a pointer to the next one.
pub mod Chain
use textbook_c_ds_deep.Prelude.{ℕ, Option, none, some, List}
use textbook_c_ds_deep.Run.{Run, ok, fault, ◌>>=◌}
use textbook_c_ds_deep.Array.{Default, load}

-- What a slot holds: a pointer in its first word, where a slot's address is its number and `none` is
-- NULL, or bytes of another use.
pub data Cell : Type 0 where
  link : Option ℕ → Cell
  filled : ℕ → Cell

instance abbrev pub cell_default : Default Cell
cell_default = record { value = filled 0 }

-- `*(void**)obj`; other bytes are no pointer that the program may use.
unfoldable pub next_of : List Cell → ℕ → Run (Option ℕ)
next_of memory obj = load memory obj >>= λ c. elim c [ link next ↦ ok next | filled byte ↦ fault ]
