-- ===== src/Stack/Postfix/Enough.antt =====
-- `infix_to_postfix` with a buffer that is large enough.
use textbook_c_ds_deep.Prelude.{
  ℕ, zero, suc, ◌+◌, ◌-◌, ◌*◌, ◌^◌, ◌≤◌, ◌<◌, ◌≡◌, refl, Bool, true, false, some, List, [], ◌∷◌,
  arith, ltb, ◌==◌, if◌then◌else◌, dec64, length, length-set,
}
use textbook_c_ds_deep.Run.{ok, Returns, returns, bind, branch}
use textbook_c_ds_deep.Memory.{ReallocSucceeds, Memory}
use textbook_c_ds_deep.Array.{at, load-ok, store-ok}
use textbook_c_ds_deep.Array.Stacked.{stack_of, IsStacked-stack_of}
use textbook_c_ds_deep.Stack.{astack_init}
use textbook_c_ds_deep.Stack.Lifo.{Holds, astack_push-Pushed}
use textbook_c_ds_deep.Stack.Postfix.{
  Conversion, write, push_operator, convert_loop, trim, infix_to_postfix, isdigit, is_operator,
}
use textbook_c_ds_deep.Stack.Postfix.Room.{
  char_default, Fits, dec64_minus, drain_loop-Fits, close_loop-Fits, operator_loop-Fits,
}
use textbook_c_ds_deep.Stack.Postfix.Digits.{
  after_digit, after_digit-Fits, digits_loop-digit, digits_loop-Digits,
}

module _ (size : ℕ) where
  -- What the loop over the characters leaves.
  abbrev Converted : Bool × Conversion → Type 0
  Converted (fits, c) = (fits ≡ true) × Fits size 0 c

  module _ (memory : Memory ℕ) (gives : ReallocSucceeds memory) where
    push_operator-Fits :
        (m op : ℕ) (c : Conversion)
        → Fits size (suc m) c
        → Returns (Fits size m) (push_operator memory c op)
    unfolding push_operator
    push_operator-Fits m op c f =
        let s = c.op_stack in
        let holds : Holds s (stack_of s.data_ s.count) = record {
          valid = f.valid;
          stacked = IsStacked-stack_of s.data_ s.count;
        } in
        bind
          (astack_push-Pushed memory gives s (stack_of s.data_ s.count) op holds
            (omega (arith, f.few)))
          λ out h. returns (record {
            valid = h.0.valid;
            block = f.block;
            budget = omega (arith, f.budget, h.2);
            few = omega (arith, f.few, h.2);
          })

    spaced-Fits :
        (p : List ℕ) (c : Conversion)
        → 2 ≤ size
        → size < 2 ^ 64
        → Fits size (length p) c
        → c.pos + 2 * c.op_stack.count + 2 * length p + 2 + 1 ≤ size
        → Returns (Fits size (length p)) (if ltb c.pos (dec64 size) then write c b' ' else ok c)
    unfolding write
    spaced-Fits p c h w f room =
        let free : ltb c.pos (dec64 size) ≡ true =
          rw (dec64_minus size h w) (ground (arith, room)) in
        rw (free, store-ok c.result c.pos b' ' (omega (arith, f.block, room)))
          (returns (record {
            valid = f.valid;
            block = rw (length-set c.result c.pos b' ') f.block;
            budget = omega (arith, room);
            few = f.few;
          }))

    fewer : (m : ℕ) (c : Conversion) → Fits size (suc m) c → Fits size m c
    fewer m c f = record {
      valid = f.valid;
      block = f.block;
      budget = omega (arith, f.budget);
      few = omega (arith, f.few);
    }

    convert_loop-Converted :
        (fuel : ℕ) (p : List ℕ) (c : Conversion)
        → size < 2 ^ 64
        → length p < fuel
        → Fits size (length p) c
        → Returns Converted (convert_loop memory fuel size p c)
    unfolding convert_loop after_digit
    convert_loop-Converted zero p c w enough f = absurd (omega arith)
    convert_loop-Converted (suc fuel) [] c w enough f = returns (refl, f)
    convert_loop-Converted (suc fuel) (ch ∷ p) c w enough f =
        let h : 2 ≤ size = omega (arith, f.budget) in
        let m = length p in
        let less = fewer m c f in
        let enough' : m < fuel = omega arith in
        let on : (c' : Conversion)
            → Fits size m c'
            → Returns Converted (convert_loop memory fuel size p c') =
          λ c' f'. convert_loop-Converted fuel p c' w enough' f' in
        branch (ch == b' ') (λ space. on c less)
          λ _.
            branch (isdigit ch)
              (λ digit.
                let d = after_digit-Fits size ch p c h w f in
                rw (digits_loop-digit size ch p c h w f digit) (
                  bind
                    (digits_loop-Digits size p (after_digit size ch p c h w f) 1 h w d
                      (omega (arith, f.budget)))
                    λ out r. rw r.all (
                      bind (spaced-Fits out.1 out.2 h w r.fits (omega (arith, r.slack, r.shorter)))
                        λ c' f'.
                          convert_loop-Converted fuel out.1 c' w (omega (arith, r.shorter)) f')))
              λ _.
                branch (ch == b'(') (λ _. bind (push_operator-Fits m ch c f) on)
                  λ _.
                    branch (ch == b')')
                      (λ _.
                        bind (close_loop-Fits size m w (c.op_stack.count + 1) c (omega arith) less)
                          on)
                      λ _.
                        branch (is_operator ch)
                          (λ _.
                            bind
                              (operator_loop-Fits size (suc m) w (c.op_stack.count + 1) ch c
                                (omega arith) f)
                              λ c' f'. bind (push_operator-Fits m ch c' f') on)
                          (λ _. on c less)

    -- A place in the buffer for the final zero.
    HasPlace : Conversion → Type 0
    HasPlace c = c.pos < length c.result

    trim-HasPlace : (c : Conversion) → Fits size 0 c → Returns HasPlace (trim memory c)
    unfolding trim HasPlace
    trim-HasPlace c f =
        let here : c.pos < length c.result = omega (arith, f.block, f.budget) in
        branch (ltb 0 c.pos)
          (λ some_.
            let last = at c.result (c.pos - 1) in
            rw (load-ok c.result (c.pos - 1) (omega (arith, here)))
              (returns (trimmed (last == b' ') here)))
          (λ _. returns here)
      where
        trimmed :
            (b : Bool)
            → c.pos < length c.result
            → (if b then record c { pos = c.pos - 1 } else c).pos
              < length (if b then record c { pos = c.pos - 1 } else c).result
        trimmed true h = omega arith
        trimmed false h = h

    -- Where malloc finds the 32 cells and realloc never fails: for a source of `n` characters and a
    -- buffer of `2 * n + 2` bytes at least, which `result_size` does not exceed, the conversion returns
    -- true.
    pub infix_to_postfix-Returns :
        (first : List ℕ)
        → memory.malloc 32 ≡ some first
        → (source result : List ℕ) → 2 * length source + 2 ≤ size
        → length source ≤ 2 ^ 30
        → size < 2 ^ 64
        → size ≤ length result
        → Returns (λ out. out.0 ≡ true) (infix_to_postfix memory source result size)
    unfolding infix_to_postfix astack_init HasPlace
    infix_to_postfix-Returns first found source result enough few w room =
        let start : Conversion = record {
          op_stack = record { data_ = first; count = 0; capacity = 32 };
          result = result;
          pos = 0;
        } in
        let f : Fits size (length source) start = record {
          valid = record {
            block = memory.malloc_length 32 first found;
            bounded = omega arith;
            nonzero = omega arith;
          };
          block = room;
          budget = omega arith;
          few = omega arith;
        } in
        rw (infix_to_postfix, astack_init, found)
          (bind (convert_loop-Converted (length source + 1) source start w (omega arith) f) λ c r.
            rw r.0 (
              bind (drain_loop-Fits size 0 w (c.1.op_stack.count + 1) c.1 (omega arith) r.1) λ d f'.
                bind (trim-HasPlace d f')
                  λ e place. rw (store-ok e.result e.pos 0 place) (returns refl)))
