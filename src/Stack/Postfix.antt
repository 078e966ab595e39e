-- ===== src/Stack/Postfix.antt =====
-- stack.c: infix to postfix with a stack of operators, and the evaluation of a postfix string.
pub mod Room
pub mod Digits
pub mod Enough
use textbook_c_ds_deep.Prelude.{
  ℕ, zero, suc, ◌+◌, ◌-◌, ◌*◌, ◌%◌, ◌^◌, Bool, true, false, ◌&&◌, ◌||◌, Option, none, some, List,
  [], ◌∷◌, leb, ltb, ◌==◌, if◌then◌else◌, dec64, length,
}
use textbook_c_ds_deep.Run.{Run, ok, fault, out_of_fuel, ◌>>=◌, check}
use textbook_c_ds_deep.Memory.{Memory}
use textbook_c_ds_deep.Array.{load, store}
use textbook_c_ds_deep.Stack.{
  ArrayStack, astack_init, astack_push, astack_pop, astack_peek, astack_empty,
}

abbrev pub precedence : ℕ → ℕ
precedence op =
    if op == b'+' || op == b'-'
    then 1
    else if op == b'*' || op == b'/'
    then 2
    else if op == b'^'
    then 3
    else 0

abbrev pub is_operator : ℕ → Bool
is_operator c = c == b'+' || (c == b'-' || (c == b'*' || (c == b'/' || c == b'^')))

abbrev pub isdigit : ℕ → Bool
isdigit c = leb b'0' c && leb c b'9'

-- The locals of `infix_to_postfix`.
pub record Conversion : Type 0 where
  pub op_stack : ArrayStack ℕ
  pub result : List ℕ
  pub pos : ℕ

-- `result[pos++] = x`
pub write : Conversion → ℕ → Run Conversion
write c x = do a ← store c.result c.pos x; ok (record c { result = a; pos = c.pos + 1 })

-- `if (pos < limit) { result[pos++] = astack_pop(&op_stack); result[pos++] = ' '; }`
pub emit : ℕ → Conversion → Run Conversion
unfolding write
emit limit c =
    let written : Run Conversion = do
      (item, st) ← astack_pop c.op_stack
      op ← check item
      d ← write (record c { op_stack = st }) op
      write d b' '
    in if ltb c.pos limit then written else ok c

-- The loop at a closing parenthesis.
pub close_loop : ℕ → ℕ → Conversion → Run Conversion
unfolding emit
close_loop zero limit c = out_of_fuel
close_loop (suc fuel) limit c =
    let round : Run Conversion = do
      item ← astack_peek c.op_stack
      top ← check item
      let paren : Run Conversion = do
        (_, st) ← astack_pop c.op_stack
        ok (record c { op_stack = st })
      let again = emit limit c >>= close_loop fuel limit
      if top == b'(' then paren else again
    in if astack_empty c.op_stack then ok c else round

-- The loop at an operator.
pub operator_loop : ℕ → ℕ → ℕ → Conversion → Run Conversion
unfolding emit
operator_loop zero limit op c = out_of_fuel
operator_loop (suc fuel) limit op c =
    let round : Run Conversion = do
      item ← astack_peek c.op_stack
      top ← check item
      let again = emit limit c >>= operator_loop fuel limit op
      if top == b'(' then ok c else if leb (precedence op) (precedence top) then again else ok c
    in if astack_empty c.op_stack then ok c else round

-- The loop after the last character.
pub drain_loop : ℕ → ℕ → Conversion → Run Conversion
unfolding emit
drain_loop zero limit c = out_of_fuel
drain_loop (suc fuel) limit c =
    let again = emit limit c >>= drain_loop fuel limit in
    if astack_empty c.op_stack then ok c else again

-- The loop over the digits of a number: whether they fitted, and the rest of the string.
pub digits_loop : ℕ → List ℕ → Conversion → Run (Bool × List ℕ × Conversion)
unfolding write
digits_loop limit [] c = ok (true, [], c)
digits_loop limit (d ∷ p) c =
    let next = write c d >>= digits_loop limit p in
    if isdigit d
    then (if ltb c.pos limit then next else ok (false, d ∷ p, c))
    else ok (true, d ∷ p, c)

-- `result_size - 2`, on a `size_t`
abbrev pub pair_limit : ℕ → ℕ
pair_limit result_size = (result_size + (2 ^ 64 - 2)) % 2 ^ 64

module _ (memory : Memory ℕ) where
  pub push_operator : Conversion → ℕ → Run Conversion
  push_operator c op = do
    (_, st) ← astack_push memory c.op_stack op
    ok (record c { op_stack = st })

  -- The loop over the characters. Every round takes one at least, and a round of the inner loops takes
  -- an operator off the stack, where the buffer has room for it.
  pub convert_loop : ℕ → ℕ → List ℕ → Conversion → Run (Bool × Conversion)
  unfolding write close_loop operator_loop digits_loop push_operator
  convert_loop zero size p c = out_of_fuel
  convert_loop (suc fuel) size [] c = ok (true, c)
  convert_loop (suc fuel) size (ch ∷ p) c =
      let limit = pair_limit size in
      let skip = convert_loop fuel size p c in
      let number : Run (Bool × Conversion) = do
        (fits, p', c') ← digits_loop (dec64 size) (ch ∷ p) c
        let spaced = if ltb c'.pos (dec64 size) then write c' b' ' else ok c'
        let rest = spaced >>= convert_loop fuel size p'
        if fits then rest else ok (false, c')
      in let open_ = push_operator c ch >>= convert_loop fuel size p in
        let close = close_loop (c.op_stack.count + 1) limit c >>= convert_loop fuel size p in
        let operator : Run (Bool × Conversion) = do
          c' ← operator_loop (c.op_stack.count + 1) limit ch c
          c'' ← push_operator c' ch
          convert_loop fuel size p c''
        in if ch == b' '
          then skip
          else if isdigit ch
          then number
          else if ch == b'('
          then open_
          else if ch == b')'
          then close
          else if is_operator ch
          then operator
          else skip

  -- `if (pos > 0 && result[pos-1] == ' ') pos--;`
  pub trim : Conversion → Run Conversion
  trim c =
      let last : Run Conversion = do
        x ← load c.result (c.pos - 1)
        ok (if x == b' ' then record c { pos = c.pos - 1 } else c)
      in if ltb 0 c.pos then last else ok c

  unfoldable pub infix_to_postfix : List ℕ → List ℕ → ℕ → Run (Bool × List ℕ)
  unfolding convert_loop drain_loop trim
  infix_to_postfix source result result_size = elim (astack_init memory 32) [
    | none ↦ ok (false, result)
    | some st ↦
        let start : Conversion = record { op_stack = st; result = result; pos = 0 } in
        do
          (fits, c) ← convert_loop (length source + 1) result_size source start
          let finish : Run (Bool × List ℕ) = do
            d ← drain_loop (c.op_stack.count + 1) (pair_limit result_size) c
            e ← trim d
            a ← store e.result e.pos 0
            ok (true, a)
          if fits then finish else ok (false, c.result)
  ]
