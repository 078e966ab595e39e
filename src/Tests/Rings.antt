-- ===== src/Tests/Rings.antt =====
-- ring_buffer.c.
use textbook_c_ds_deep.Prelude.{ℕ, ◌+◌, ◌-◌, ◌^◌, ◌≡◌, refl, inr, false, [], ◌∷◌, arith}
use textbook_c_ds_deep.Run.{ok, out_of_fuel, ◌>>=◌, Returns}
use textbook_c_ds_deep.Array.{load, store}
use textbook_c_ds_deep.Memory.{cells}
use textbook_c_ds_deep.RingBuffer.{RingBuffer, IsValid, next_power_loop, rb_enqueue, rb_dequeue}
use textbook_c_ds_deep.RingBuffer.Size.{next_power_loop-out_of_fuel}
use textbook_c_ds_deep.RingBuffer.Queue.{
  Enqueued, Dequeued, rb_enqueue_appends, rb_enqueue_refuses, rb_dequeue_takes,
}
use textbook_c_ds_deep.Tests.Allocators.{plenty, scarce}

-- A full ring whose indices are about to wrap.
abbrev wrapped : RingBuffer
wrapped = record {
  buf = 8 ∷ 9 ∷ [];
  capacity = 2;
  mask = 1;
  head = 2 ^ 64 - 1;
  tail = 1;
  count = 2;
}

wrapped-IsValid : IsValid wrapped
wrapped-IsValid = record {
  power = (1, refl);
  masked = refl;
  block = refl;
  bounded = omega arith;
  small = omega arith;
  word = omega arith;
  ends = refl;
}

session :
    (do
      (done, rb) ← rb_enqueue (plenty 0) wrapped 7
      (a, rb) ← rb_dequeue rb
      (b, rb) ← rb_dequeue rb
      (c, rb) ← rb_dequeue rb
      (d, rb) ← rb_dequeue rb
      ok (a ∷ b ∷ c ∷ d ∷ []))
    ≡ ok (9 ∷ 8 ∷ 7 ∷ 0 ∷ [])
unfolding cells rb_enqueue rb_dequeue load store plenty
session = refl

rb_enqueue_appends_example : Returns (Enqueued wrapped 7) (rb_enqueue (plenty 0) wrapped 7)
unfolding plenty
rb_enqueue_appends_example =
    rb_enqueue_appends (plenty 0) wrapped 7 wrapped-IsValid
      (inr (refl, omega arith, 0 ∷ 0 ∷ 0 ∷ 0 ∷ [], refl))

rb_enqueue_refuses_example : rb_enqueue (scarce ℕ) wrapped 7 ≡ ok (false, wrapped)
unfolding scarce
rb_enqueue_refuses_example =
    rb_enqueue_refuses (scarce ℕ) wrapped 7 wrapped-IsValid refl (omega arith) refl

rb_dequeue_takes_example : Returns (Dequeued wrapped) (rb_dequeue wrapped)
rb_dequeue_takes_example = rb_dequeue_takes wrapped wrapped-IsValid

next_power_loop-out_of_fuel_example : next_power_loop 1000 (2 ^ 63 + 1) 1 ≡ out_of_fuel
next_power_loop-out_of_fuel_example = next_power_loop-out_of_fuel 1000 (2 ^ 63 + 1) (omega arith)
