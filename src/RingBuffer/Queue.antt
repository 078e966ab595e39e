-- ===== src/RingBuffer/Queue.antt =====
-- The operations against a queue, a list with its front first.
use Prim.Native.Nat.{bit_and}
use native.Mathlib.Nat.{zero-add, mod-lt}
use native.Mathlib.Numerals.{add-one}
use textbook_c_ds_deep.Prelude.{
  ℕ, zero, suc, ◌+◌, ◌-◌, ◌*◌, ◌%◌, ◌^◌, ◌≤◌, ◌<◌, ◌≡◌, ◌⊎◌, inl, inr, Bool-cases, Option-cases,
  refl, sym, ◌∙◌, ap, Bool, true, false, Option, none, some, List, [], ◌∷◌, ◌++◌, arith, length,
  take, set, length-set, take-set_le, ◌==◌, inc64, dec64,
}
use textbook_c_ds_deep.Run.{ok, Returns, returns, bind, branch, weaken}
use textbook_c_ds_deep.Memory.{Memory, cells, cells_fit}
use textbook_c_ds_deep.Array.{at, at-set, take-suc, load-ok, store-ok}
use textbook_c_ds_deep.Bits.{IsPow, pow_pos, IsPow-double, masked_mod, wrap_mod}
use textbook_c_ds_deep.RingBuffer.{
  pointer_default, RingBuffer, copy_loop, put, rb_init, rb_enqueue, rb_dequeue, rb_peek, IsValid,
  is_power_of_two,
}
use textbook_c_ds_deep.RingBuffer.Size.{is_power_of_two_iff, next_power_of_two-IsRoundedUp}
use textbook_c_ds_deep.RingBuffer.View.{view, view-mod, view-set, view-take, view-append}

-- The pointers in the queue, the next one to leave first.
abbrev pub contents : RingBuffer → List ℕ
contents rb = view rb.buf rb.capacity rb.head rb.count

module _ {rb : RingBuffer} (v : IsValid rb) where
  cap_pos : 0 < rb.capacity
  cap_pos = let (k, e) = v.power in omega (arith, pow_pos k)

  -- The masked index of the `i`-th cell from the front lies in the block.
  index_mod : (i : ℕ) → bit_and ((rb.head + i) % 2 ^ 64) rb.mask ≡ (rb.head + i) % rb.capacity
  index_mod i =
      masked_mod rb.capacity rb.mask ((rb.head + i) % 2 ^ 64) v.power v.masked
      ∙ wrap_mod rb.capacity (rb.head + i) v.power v.small

  head_mod : bit_and rb.head rb.mask ≡ rb.head % rb.capacity
  head_mod = masked_mod rb.capacity rb.mask rb.head v.power v.masked

  index_inside : (x : ℕ) → x % rb.capacity < length rb.buf
  index_inside x = rw v.block (mod-lt x cap_pos)

-- What an accepted pointer leaves.
pub record Enqueued (rb : RingBuffer) (item : ℕ) (r : Bool × RingBuffer) : Type 0 where
  pub accepted : r.0 ≡ true
  pub valid : IsValid r.1
  pub queue : contents r.1 ≡ contents rb ++ item ∷ []

put-Enqueued :
    (rb : RingBuffer) (item : ℕ)
    → IsValid rb
    → rb.count < rb.capacity
    → Returns (Enqueued rb item) (put rb item)
unfolding put
put-Enqueued rb item v room =
    let i = (rb.head + rb.count) % rb.capacity in
    let index : bit_and rb.tail rb.mask ≡ i = rw v.ends (index_mod v rb.count) in
    rw (index, store-ok rb.buf i item (index_inside v (rb.head + rb.count)))
      (returns (record {
        accepted = refl;
        valid = record {
          power = v.power;
          masked = v.masked;
          block = length-set rb.buf i item ∙ v.block;
          bounded = omega arith;
          small = v.small;
          word = v.word;
          ends = omega (arith, v.ends);
        };
        queue = rw add-one (view-set rb.buf rb.capacity rb.head rb.count item v.block room);
      }))

-- The copy brings the queue to the front of the new block.
copy_loop-view :
    (rounds i : ℕ) (rb : RingBuffer) (a : List ℕ)
    → IsValid rb
    → i + rounds ≤ length a
    → take i a ≡ view rb.buf rb.capacity rb.head i
    → Returns
        (λ b.
          (take (i + rounds) b ≡ view rb.buf rb.capacity rb.head (i + rounds))
          × (length b ≡ length a))
        (copy_loop rounds i rb a)
unfolding copy_loop
copy_loop-view zero i rb a v h e =
    let same : i ≡ i + 0 = omega arith in returns (rw (← same) e, refl)
copy_loop-view (suc rounds) i rb a v h e =
    let j = (rb.head + i) % rb.capacity in
    let x = at rb.buf j in
    let b = set a i x in
    let total : i + 1 + rounds ≡ i + suc rounds = omega arith in
    let inside : i < length b = omega (arith, length-set a i x) in
    let written : at b i ≡ x = ground (arith, at-set a i i x) in
    let copied : take (suc i) b ≡ view rb.buf rb.capacity rb.head (suc i) =
      rw
        (
          take-suc i b inside,
          take-set_le i a i x (omega arith),
          e,
          written,
          view-append rb.buf rb.capacity rb.head i,
        )
        refl in
    let rest =
      copy_loop-view rounds (i + 1) rb b v (omega (arith, length-set a i x)) (rw add-one copied) in
    rw
      (index_mod v i, load-ok rb.buf j (index_inside v (rb.head + i)), store-ok a i x (omega arith))
      (weaken
        {Q = λ c.
          (take (i + suc rounds) c ≡ view rb.buf rb.capacity rb.head (i + suc rounds))
          × (length c ≡ length a)}
        rest λ c s. (rw total at s.0, s.1 ∙ length-set a i x))

module _ (memory : Memory ℕ) where
  -- There is a free cell, or `malloc` finds room for twice the cells, which are not too many.
  abbrev pub HasRoom : RingBuffer → Type 0
  HasRoom rb =
      (rb.count < rb.capacity)
      ⊎ ((rb.count ≡ rb.capacity)
          × (rb.capacity ≤ 2 ^ 59)
          × (b : List ℕ) × (memory.malloc (rb.capacity * 2) ≡ some b))

  -- The ring in its new block.
  moved-IsValid :
      (rb : RingBuffer) (b : List ℕ) (wide : ℕ)
      → IsValid rb
      → rb.capacity ≤ 2 ^ 59
      → wide ≡ rb.capacity * 2
      → length b ≡ wide
      → IsValid (record {
        buf = b;
        capacity = wide;
        mask = dec64 wide;
        head = 0;
        tail = rb.count;
        count = rb.count;
      })
  moved-IsValid rb b wide v few e size = record {
    power = rw e (IsPow-double rb.capacity v.power);
    masked = omega (arith, cap_pos v);
    block = size;
    bounded = omega (arith, v.bounded);
    small = omega arith;
    word = omega arith;
    ends = omega (arith, v.bounded, v.small);
  }

  -- With room for it, the pointer joins the end of the queue, also when the block has to grow.
  pub rb_enqueue_appends :
      (rb : RingBuffer) (item : ℕ)
      → IsValid rb
      → HasRoom rb
      → Returns (Enqueued rb item) (rb_enqueue memory rb item)
  unfolding rb_enqueue
  rb_enqueue_appends rb item v (inl free) =
      let open_ : (rb.count == rb.capacity) ≡ false = ground arith in
      rw open_ (put-Enqueued rb item v free)
  rb_enqueue_appends rb item v (inr (full, few, b, found)) =
      let e : (rb.count == rb.capacity) ≡ true = ground arith in
      let wide = rb.capacity * 2 % 2 ^ 64 in
      let n : wide ≡ rb.capacity * 2 = omega arith in
      let found' : memory.malloc wide ≡ some b = rw n found in
      let meant : cells wide 8 ≡ wide = cells_fit wide 8 (omega arith) (omega (arith, n, few)) in
      let size = memory.malloc_length wide b found' in
      let pos = cap_pos v in
      rw (e, meant, found')
        (bind (copy_loop-view rb.count 0 rb b v (omega arith) refl) λ c s.
          let w = moved-IsValid rb c wide v few n (s.1 ∙ size) in
          let same : view c wide 0 rb.count ≡ contents rb =
            view-take c wide rb.count w.block (omega arith) ∙ rw zero-add at s.0 in
          weaken (put-Enqueued _ item w (omega arith))
            λ r t. record { accepted = t.accepted; valid = t.valid; queue = rw same at t.queue })

  -- A full ring for which `malloc` finds no larger block refuses, and keeps its queue.
  pub rb_enqueue_refuses :
      (rb : RingBuffer) (item : ℕ)
      → IsValid rb
      → rb.count ≡ rb.capacity
      → rb.capacity ≤ 2 ^ 59
      → memory.malloc (rb.capacity * 2) ≡ none
      → rb_enqueue memory rb item ≡ ok (false, rb)
  unfolding rb_enqueue
  rb_enqueue_refuses rb item v full few none_found =
      let e : (rb.count == rb.capacity) ≡ true = ground arith in
      let n : rb.capacity * 2 % 2 ^ 64 ≡ rb.capacity * 2 = omega (arith, v.small) in
      let meant = cells_fit (rb.capacity * 2) 8 (omega arith) (omega (arith, few)) in
      rw (e, n, meant, none_found)

-- What a dequeue returns and leaves: NULL and the same ring, where the queue is empty, or the front of
-- the queue and the others.
abbrev pub Dequeued : RingBuffer → ℕ × RingBuffer → Type 0
Dequeued rb (item, s) =
    ((contents rb ≡ []) × (item ≡ 0) × (s ≡ rb)) ⊎ (IsValid s × (contents rb ≡ item ∷ contents s))

module _ (rb : RingBuffer) (v : IsValid rb) where
  -- The first pointer leaves the queue and is returned; an empty queue answers NULL and does not change.
  pub rb_dequeue_takes : Returns (Dequeued rb) (rb_dequeue rb)
  unfolding rb_dequeue
  rb_dequeue_takes =
      branch (rb.count == 0)
        (λ e.
          let none_left : rb.count ≡ 0 = ground arith in
          returns (inl (rw none_left refl, refl, refl)))
        (λ e.
          let last = rb.count - 1 in
          let some_left : rb.count ≡ suc last = ground arith in
          let j = rb.head % rb.capacity in
          let again = wrap_mod rb.capacity (rb.head + 1) v.power v.small in
          rw (head_mod v, load-ok rb.buf j (index_inside v rb.head))
            (returns (
              inr (
                record {
                  power = v.power;
                  masked = v.masked;
                  block = v.block;
                  bounded = omega (arith, v.bounded);
                  small = v.small;
                  word = omega arith;
                  ends = omega (arith, v.ends);
                },
                ap (view rb.buf rb.capacity rb.head) some_left
                    ∙ ap (◌∷◌ (at rb.buf j)) (
                        view-mod rb.buf rb.capacity (rb.head + 1) (inc64 rb.head) last (sym again)),
              ))))

  -- `rb_peek` shows what `rb_dequeue` would return, and the queue stays.
  pub rb_peek_shows : Returns (λ r. rb_peek rb ≡ ok r.0) (rb_dequeue rb)
  unfolding rb_dequeue rb_peek
  rb_peek_shows =
      branch (rb.count == 0) (λ e. returns (rw e))
        (λ e.
          let j = rb.head % rb.capacity in
          rw (head_mod v, load-ok rb.buf j (index_inside v rb.head)) (returns (rw e refl)))

-- What `rb_init` returns: NULL for no memory, or an empty ring with room for at least `n` pointers.
abbrev pub Initialised : ℕ → Option RingBuffer → Type 0
Initialised n none = Unit
Initialised n (some rb) = IsValid rb × (contents rb ≡ []) × (n ≤ rb.capacity)

module _ (memory : Memory ℕ) where
  fresh-Initialised :
      (n size : ℕ)
      → IsPow size
      → n ≤ size
      → size ≤ 2 ^ 60
      → Initialised n (elim (memory.malloc (cells size 8)) [
        | none ↦ none
        | some b ↦
            some (record {
              buf = b;
              capacity = size;
              mask = dec64 size;
              head = 0;
              tail = 0;
              count = 0;
            })
      ])
  fresh-Initialised n size pow enough small =
      let meant = cells_fit size 8 (omega arith) (omega (arith, small)) in
      elim (Option-cases (memory.malloc size)) [
        | inl e ↦ rw (meant, e) tt
        | inr (b, e) ↦
            let (k, p) = pow in
            rw (meant, e)
              (
                record {
                  power = pow;
                  masked = omega (arith, pow_pos k);
                  block = memory.malloc_length size b e;
                  bounded = omega arith;
                  small = small;
                  word = omega arith;
                  ends = omega arith;
                },
                refl,
                enough,
              )
      ]

  -- For up to 2^59 pointers `rb_init` ends, and gives a valid, empty ring that holds them, if `malloc`
  -- finds room.
  pub rb_init-Initialised : (n : ℕ) → n ≤ 2 ^ 59 → Returns (Initialised n) (rb_init memory n)
  unfolding rb_init
  rb_init-Initialised n h = elim (Bool-cases (is_power_of_two n)) [
    | inl e ↦
        let pow = (is_power_of_two_iff n (omega arith)).0 e in
        rw e (returns (fresh-Initialised n n pow (omega arith) (omega arith)))
    | inr e ↦ rw e (
        bind (next_power_of_two-IsRoundedUp n (omega arith))
          λ p r. returns (fresh-Initialised n p r.power r.enough (omega (arith, r.least))))
  ]
