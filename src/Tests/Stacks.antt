-- ===== src/Tests/Stacks.antt =====
-- stack.c.
use textbook_c_ds_deep.Prelude.{ℕ, ◌≡◌, refl, true, List, [], ◌∷◌, arith, replicate}
use textbook_c_ds_deep.Run.{ok, out_of_fuel, Returns, ◌>>=◌}
use textbook_c_ds_deep.Memory.{ReallocSucceeds, Memory}
use textbook_c_ds_deep.Array.{load, store}
use textbook_c_ds_deep.BracketChecker
use textbook_c_ds_deep.BracketChecker.{BracketInfo}
use textbook_c_ds_deep.Stack.{astack_init, astack_push, astack_pop, astack_peek, check_brackets}
use textbook_c_ds_deep.Stack.Brackets.{check_brackets_agree}
use textbook_c_ds_deep.Stack.Postfix.{Conversion, drain_loop, infix_to_postfix}
use textbook_c_ds_deep.Stack.Postfix.Room.{drain_loop-out_of_fuel}
use textbook_c_ds_deep.Stack.Postfix.Enough.{infix_to_postfix-Returns}
use textbook_c_ds_deep.Tests.Allocators.{plenty, resized}

abbrev chars : Memory ℕ
chars = plenty 0

abbrev blank_info : BracketInfo
blank_info = record { ch = 0; line = 0; col = 0 }

abbrev infos : Memory BracketInfo
infos = plenty blank_info

gives : ReallocSucceeds chars
unfolding plenty
gives a n = (resized 0 a n, refl)

gives_infos : ReallocSucceeds infos
unfolding plenty
gives_infos a n = (resized blank_info a n, refl)

-- `3+4*2` and `[(])`
abbrev sum : List ℕ
sum = b'3' ∷ b'+' ∷ b'4' ∷ b'*' ∷ b'2' ∷ []

abbrev crossed : List ℕ
crossed = b'[' ∷ b'(' ∷ b']' ∷ b')' ∷ []

-- `3 4 2 * +` and the final zero
infix_to_postfix-sum :
    infix_to_postfix chars sum (replicate 12 1) 12
    ≡ ok (true, b'3' ∷ b' ' ∷ b'4' ∷ b' ' ∷ b'2' ∷ b' ' ∷ b'*' ∷ b' ' ∷ b'+' ∷ 0 ∷ 1 ∷ 1 ∷ [])
unfolding infix_to_postfix astack_init astack_push astack_pop astack_peek load store plenty
infix_to_postfix-sum = refl

-- In five bytes the operators do not fit, and the loop that writes them out does not end.
abbrev cramped : Conversion
cramped = record {
  op_stack = record { data_ = b'+' ∷ []; count = 1; capacity = 1 };
  result = b'3' ∷ b' ' ∷ b'4' ∷ b' ' ∷ 1 ∷ [];
  pos = 4;
}

drain_loop-out_of_fuel_example : drain_loop 9 3 cramped ≡ out_of_fuel
drain_loop-out_of_fuel_example = drain_loop-out_of_fuel 9 3 cramped (omega arith) (omega arith)

infix_to_postfix-Returns_example :
    Returns (λ out. out.0 ≡ true) (infix_to_postfix chars sum (replicate 12 1) 12)
unfolding plenty
infix_to_postfix-Returns_example =
    infix_to_postfix-Returns 12 chars gives (replicate 32 0) refl sum (replicate 12 1) (omega arith)
      (omega arith) (omega arith) (omega arith)

check_brackets_agree_example :
    check_brackets chars crossed ≡ (BracketChecker.check_brackets infos crossed >>= λ r. ok r.is_ok)
unfolding plenty
check_brackets_agree_example =
    check_brackets_agree chars infos (replicate 64 0) refl gives (replicate 64 blank_info) refl
      gives_infos crossed (omega arith)
