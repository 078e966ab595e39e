-- ===== src/Stack/Postfix/Room.antt =====
-- The operators of `infix_to_postfix` in a buffer with room, and in one that is full.
use textbook_c_ds_deep.Prelude.{
  ℕ, zero, suc, ◌+◌, ◌-◌, ◌*◌, ◌^◌, ◌≤◌, ◌<◌, ◌≡◌, refl, true, false, some, arith, leb, ltb, ◌==◌,
  dec64, length, set, length-set,
}
use textbook_c_ds_deep.Run.{ok, out_of_fuel, Returns, returns, bind, branch}
use textbook_c_ds_deep.Array.{Default, at, load-ok, store-ok}
use textbook_c_ds_deep.Stack.{astack_pop, astack_peek, IsValid}
use textbook_c_ds_deep.Stack.Postfix.{
  Conversion, write, emit, close_loop, operator_loop, drain_loop, pair_limit, precedence,
}

instance abbrev pub char_default : Default ℕ
char_default = record { value = 0 }

-- With operators left and no room for two more bytes the last loop never ends.
pub drain_loop-out_of_fuel :
    (fuel limit : ℕ) (c : Conversion)
    → 0 < c.op_stack.count
    → limit ≤ c.pos
    → drain_loop fuel limit c ≡ out_of_fuel
unfolding drain_loop emit
drain_loop-out_of_fuel zero limit c some_left no_room = refl
drain_loop-out_of_fuel (suc fuel) limit c some_left no_room =
    let full : ltb c.pos limit ≡ false = ground arith in
    let left : (c.op_stack.count == 0) ≡ false = ground arith in
    rw (left, full) (drain_loop-out_of_fuel fuel limit c some_left no_room)

-- The buffer has room for what is on the stack and for `m` more characters.
pub record Fits (size m : ℕ) (c : Conversion) : Type 0 where
  pub valid : IsValid c.op_stack
  pub block : size ≤ length c.result
  pub budget : c.pos + 2 * c.op_stack.count + 2 * m + 2 ≤ size
  pub few : c.op_stack.count + m ≤ 2 ^ 30

pub pair_limit_minus : (size : ℕ) → 2 ≤ size → size < 2 ^ 64 → pair_limit size ≡ size - 2
pair_limit_minus size h k = ground arith

pub dec64_minus : (size : ℕ) → 2 ≤ size → size < 2 ^ 64 → dec64 size ≡ size - 1
dec64_minus size h k = ground arith

module _ (size : ℕ) where
  pub after_pop : Conversion → Conversion
  after_pop c = record c { op_stack = record c.op_stack { count = c.op_stack.count - 1 } }

  pub pop-some :
      (c : Conversion) (m : ℕ)
      → Fits size m c
      → 0 < c.op_stack.count
      → astack_pop c.op_stack
        ≡ ok (some (at c.op_stack.data_ (c.op_stack.count - 1)), (after_pop c).op_stack)
  unfolding astack_pop after_pop
  pop-some c m f full =
      let s = c.op_stack in
      let left : (s.count == 0) ≡ false = ground arith in
      rw (left, load-ok s.data_ (s.count - 1) (omega (arith, full, f.valid.block, f.valid.bounded)))
        refl

  pub after_pop-Fits : (c : Conversion) (m : ℕ) → Fits size m c → Fits size m (after_pop c)
  unfolding after_pop
  after_pop-Fits c m f = record {
    valid = record {
      block = f.valid.block;
      bounded = omega (arith, f.valid.bounded);
      nonzero = f.valid.nonzero;
    };
    block = f.block;
    budget = omega (arith, f.budget);
    few = omega (arith, f.few);
  }

  -- What `emit` leaves: an operator less on the stack.
  pub Emitted : ℕ → Conversion → Conversion → Type 0
  Emitted m c c' = Fits size m c' × (c'.op_stack.count + 1 ≡ c.op_stack.count)

  pub emit-Emitted :
      (m : ℕ) (c : Conversion)
      → size < 2 ^ 64
      → Fits size m c
      → 0 < c.op_stack.count
      → Returns (Emitted m c) (emit (pair_limit size) c)
  unfolding emit write after_pop Emitted
  emit-Emitted m c w f full =
      let lim = pair_limit_minus size (omega (arith, f.budget)) w in
      let room : ltb c.pos (size - 2) ≡ true = ground (arith, f.budget) in
      let op = at c.op_stack.data_ (c.op_stack.count - 1) in
      let inside : c.pos < length c.result = omega (arith, full, f.block, f.budget) in
      let next : c.pos + 1 < length (set c.result c.pos op) =
        omega (arith, full, f.block, f.budget, length-set c.result c.pos op) in
      rw
        (
          lim,
          room,
          pop-some c m f full,
          store-ok c.result c.pos op inside,
          store-ok (set c.result c.pos op) (c.pos + 1) b' ' next,
        )
        (returns (
          record {
            valid = (after_pop-Fits c m f).valid;
            block =
                rw
                  (
                    length-set (set c.result c.pos op) (c.pos + 1) b' ',
                    length-set c.result c.pos op,
                  )
                  f.block;
            budget = omega (arith, f.budget, full);
            few = omega (arith, f.few);
          },
          omega (arith, full),
        ))

  pub peek-some :
      (c : Conversion) (m : ℕ)
      → Fits size m c
      → (c.op_stack.count == 0) ≡ false
      → astack_peek c.op_stack ≡ ok (some (at c.op_stack.data_ (c.op_stack.count - 1)))
  unfolding astack_peek
  peek-some c m f left =
      let s = c.op_stack in
      let inside : s.count - 1 < length s.data_ = ground (arith, f.valid.block, f.valid.bounded) in
      rw (left, load-ok s.data_ (s.count - 1) inside) refl

  module _ (m : ℕ) (w : size < 2 ^ 64) where
    pub drain_loop-Fits :
        (fuel : ℕ) (c : Conversion)
        → c.op_stack.count < fuel
        → Fits size m c
        → Returns (Fits size m) (drain_loop fuel (pair_limit size) c)
    unfolding drain_loop Emitted
    drain_loop-Fits zero c enough f = absurd (omega arith)
    drain_loop-Fits (suc fuel) c enough f =
        branch (c.op_stack.count == 0) (λ empty. returns f)
          λ left.
            bind (emit-Emitted m c w f (ground arith))
              λ c' e. drain_loop-Fits fuel c' (omega (arith, e.1)) e.0

    pub close_loop-Fits :
        (fuel : ℕ) (c : Conversion)
        → c.op_stack.count < fuel
        → Fits size m c
        → Returns (Fits size m) (close_loop fuel (pair_limit size) c)
    unfolding close_loop Emitted after_pop
    close_loop-Fits zero c enough f = absurd (omega arith)
    close_loop-Fits (suc fuel) c enough f =
        branch (c.op_stack.count == 0) (λ empty. returns f)
          λ left.
            let top = at c.op_stack.data_ (c.op_stack.count - 1) in
            rw (peek-some c m f left) (
              branch (top == b'(')
                (λ paren. rw (pop-some c m f (ground arith)) (returns (after_pop-Fits c m f)))
                (λ operator.
                  bind (emit-Emitted m c w f (ground arith))
                    λ c' e. close_loop-Fits fuel c' (omega (arith, e.1)) e.0))

    pub operator_loop-Fits :
        (fuel op : ℕ) (c : Conversion)
        → c.op_stack.count < fuel
        → Fits size m c
        → Returns (Fits size m) (operator_loop fuel (pair_limit size) op c)
    unfolding operator_loop Emitted
    operator_loop-Fits zero op c enough f = absurd (omega arith)
    operator_loop-Fits (suc fuel) op c enough f =
        branch (c.op_stack.count == 0) (λ empty. returns f)
          λ left.
            let top = at c.op_stack.data_ (c.op_stack.count - 1) in
            rw (peek-some c m f left) (
              branch (top == b'(') (λ paren. returns f)
                λ operator.
                  branch (leb (precedence op) (precedence top))
                    (λ binds.
                      bind (emit-Emitted m c w f (ground arith))
                        λ c' e. operator_loop-Fits fuel op c' (omega (arith, e.1)) e.0)
                    (λ weaker. returns f))
