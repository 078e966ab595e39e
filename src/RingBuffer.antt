-- ===== src/RingBuffer.antt =====
-- ring_buffer.c: a growable circular queue of pointers, with free-running indices and a mask.
pub mod Size
pub mod View
pub mod Queue
use Prim.Native.Nat.{bit_and}
use textbook_c_ds_deep.Prelude.{
  ℕ, zero, suc, ◌+◌, ◌-◌, ◌*◌, ◌%◌, ◌^◌, ◌≤◌, ◌<◌, ◌≡◌, Bool, true, false, ◌&&◌, Option, none, some,
  List, [], ltb, ◌==◌, if◌then◌else◌, length, inc64, dec64,
}
use textbook_c_ds_deep.Run.{Run, ok, out_of_fuel, ◌>>=◌}
use textbook_c_ds_deep.Memory.{Memory, cells}
use textbook_c_ds_deep.Array.{Default, load, store}
use textbook_c_ds_deep.Bits.{IsPow}

-- A pointer is its address.
instance abbrev pub pointer_default : Default ℕ
pointer_default = record { value = 0 }

unfoldable pub is_power_of_two : ℕ → Bool
is_power_of_two n = ltb 0 n && (bit_and n (dec64 n) == 0)

-- `while (p < n) p <<= 1;` on a `size_t`
pub next_power_loop : ℕ → ℕ → ℕ → Run ℕ
next_power_loop zero n p = out_of_fuel
next_power_loop (suc fuel) n p =
    let shift = next_power_loop fuel n (p * 2 % 2 ^ 64) in if ltb p n then shift else ok p

-- 64 shifts reach every power of two that a `size_t` holds.
unfoldable pub next_power_of_two : ℕ → Run ℕ
unfolding next_power_loop
next_power_of_two n = next_power_loop 65 n 1

pub record RingBuffer : Type 0 where
  pub buf : List ℕ
  pub capacity : ℕ
  pub mask : ℕ
  pub head : ℕ
  pub tail : ℕ
  pub count : ℕ

pub rb_empty : RingBuffer → Bool
rb_empty rb = rb.count == 0

pub rb_full : RingBuffer → Bool
rb_full rb = rb.count == rb.capacity

pub rb_size : RingBuffer → ℕ
rb_size rb = rb.count

-- `for (i = 0; i < count; i++) new_buf[i] = buf[(head + i) & mask];`, with `rounds` rounds left
pub copy_loop : ℕ → ℕ → RingBuffer → List ℕ → Run (List ℕ)
copy_loop zero i rb new_buf = ok new_buf
copy_loop (suc rounds) i rb new_buf = do
  x ← load rb.buf (bit_and ((rb.head + i) % 2 ^ 64) rb.mask)
  b ← store new_buf i x
  copy_loop rounds (i + 1) rb b

-- The end of `rb_enqueue`, with a free cell.
pub put : RingBuffer → ℕ → Run (Bool × RingBuffer)
put rb item = do
  b ← store rb.buf (bit_and rb.tail rb.mask) item
  ok (true, record rb { buf = b; tail = inc64 rb.tail; count = rb.count + 1 })

module _ (memory : Memory ℕ) where
  unfoldable pub rb_init : ℕ → Run (Option RingBuffer)
  rb_init capacity = do
    size ← if is_power_of_two capacity then ok capacity else next_power_of_two capacity
    ok (elim (memory.malloc (cells size 8)) [
      | none ↦ none
      | some b ↦
          some
            (record { buf = b; capacity = size; mask = dec64 size; head = 0; tail = 0; count = 0 })
    ])

  unfoldable pub rb_enqueue : RingBuffer → ℕ → Run (Bool × RingBuffer)
  unfolding rb_full copy_loop put
  rb_enqueue rb item =
      let new_cap = rb.capacity * 2 % 2 ^ 64 in
      let grown : Run (Bool × RingBuffer) = elim (memory.malloc (cells new_cap 8)) [
        | none ↦ ok (false, rb)
        | some new_buf ↦ copy_loop rb.count 0 rb new_buf >>= λ b.
            put
              (record {
                buf = b;
                capacity = new_cap;
                mask = dec64 new_cap;
                head = 0;
                tail = rb.count;
                count = rb.count;
              })
              item
      ] in
      if rb_full rb then grown else put rb item

-- 0 is NULL: for an empty queue, and for a NULL that was queued.
unfoldable pub rb_dequeue : RingBuffer → Run (ℕ × RingBuffer)
unfolding rb_empty
rb_dequeue rb = if rb_empty rb then ok (0, rb) else do
  item ← load rb.buf (bit_and rb.head rb.mask)
  ok (item, record rb { head = inc64 rb.head; count = rb.count - 1 })

pub rb_peek : RingBuffer → Run ℕ
unfolding rb_empty
rb_peek rb = if rb_empty rb then ok 0 else load rb.buf (bit_and rb.head rb.mask)

-- The invariant between calls. The pointers fit in the address space.
pub record IsValid (rb : RingBuffer) : Type 0 where
  pub power : IsPow rb.capacity
  pub masked : rb.mask ≡ rb.capacity - 1
  pub block : length rb.buf ≡ rb.capacity
  pub bounded : rb.count ≤ rb.capacity
  pub small : rb.capacity ≤ 2 ^ 60
  pub word : rb.head < 2 ^ 64
  pub ends : rb.tail ≡ (rb.head + rb.count) % 2 ^ 64
