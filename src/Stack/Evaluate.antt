-- ===== src/Stack/Evaluate.antt =====
-- stack.c: `eval_postfix`. The floating-point operations belong to the compiler.
use textbook_c_ds_deep.Prelude.{
  ℕ, zero, suc, ◌+◌, ◌-◌, Bool, Option, none, some, List, [], ◌∷◌, ◌==◌, if◌then◌else◌, length,
}
use textbook_c_ds_deep.Run.{Run, ok, fault, out_of_fuel, ◌>>=◌}
use textbook_c_ds_deep.Memory.{Memory}
use textbook_c_ds_deep.Stack.{ArrayStack, astack_init, astack_push, astack_pop}
use textbook_c_ds_deep.Stack.Postfix.{is_operator, isdigit}

-- What the code computes with `double`. `null` is the double whose bits are those of a NULL pointer.
pub record Double {ℓ} (D : Type ℓ) : Type ℓ where
  pub null : D
  pub of_int : ℕ → D
  pub add : D → D → D
  pub sub : D → D → D
  pub mul : D → D → D
  pub div : D → D → D
  pub is_zero : D → Bool

module _ {ℓ} {D : Type ℓ} (double : Double D) where
  -- `while (isdigit(*p)) val = val * 10 + (*p++ - '0');`
  pub number_loop : D → List ℕ → D × List ℕ
  number_loop val [] = (val, [])
  number_loop val (c ∷ p) =
      let next = double.add (double.mul val (double.of_int 10)) (double.of_int (c - b'0')) in
      let rest = number_loop next p in if isdigit c then rest else (val, c ∷ p)

  pub apply : ℕ → D → D → D
  apply op a b =
      if op == b'+'
      then double.add a b
      else if op == b'-'
      then double.sub a b
      else if op == b'*'
      then double.mul a b
      else if op == b'/'
      then (if double.is_zero b then double.of_int 0 else double.div a b)
      else double.of_int 0

  pub popped : Option D → D
  popped none = double.null
  popped (some d) = d

  module _ (memory : Memory D) where
    -- Every round takes a character at least.
    pub eval_loop : ℕ → List ℕ → ArrayStack D → Run (ArrayStack D)
    unfolding number_loop apply popped
    eval_loop zero p st = out_of_fuel
    eval_loop (suc fuel) [] st = ok st
    eval_loop (suc fuel) (c ∷ p) st =
        let skip = eval_loop fuel p st in
        let number : Run (ArrayStack D) =
          let (val, p') = number_loop (double.of_int 0) (c ∷ p) in
          astack_push memory st val >>= λ (_, st'). eval_loop fuel p' st' in
        let operator : Run (ArrayStack D) = do
          (b, st') ← astack_pop st
          (a, st'') ← astack_pop st'
          (_, out) ← astack_push memory st'' (apply c (popped a) (popped b))
          eval_loop fuel p out
        in if c == b' '
          then skip
          else if isdigit c
          then number
          else if is_operator c
          then operator
          else skip

    -- Without memory for the stack its fields are not set, and the loop reads them all the same.
    unfoldable pub eval_postfix : List ℕ → Run D
    unfolding eval_loop
    eval_postfix expr = elim (astack_init memory 32) [
      | none ↦ fault
      | some st ↦ do
        out ← eval_loop (length expr + 1) expr st
        (result, _) ← astack_pop out
        ok (popped result)
    ]
