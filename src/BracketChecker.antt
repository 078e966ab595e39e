-- ===== src/BracketChecker.antt =====
-- bracket_checker.c: brackets matched with a stack of their positions.
pub mod Scan
pub mod Grammar
use textbook_c_ds_deep.Prelude.{
  ℕ, zero, suc, ◌+◌, ◌-◌, ◌*◌, ◌≤◌, ◌<◌, ◌≡◌, Bool, true, false, ◌||◌, Option, none, some, List, [],
  ◌∷◌, leb, ◌==◌, if◌then◌else◌, length,
}
use textbook_c_ds_deep.Run.{Run, ok, exited, ◌>>=◌, int_result}
use textbook_c_ds_deep.Memory.{Memory, or_null}
use textbook_c_ds_deep.Array.{load, store}

-- A position counts from 1; the sources that a position fits in an `int` for are meant.
pub record BracketInfo : Type 0 where
  pub ch : ℕ
  pub line : ℕ
  pub col : ℕ

-- `count` is `top + 1`.
pub record BracketStack : Type 0 where
  pub data_ : List BracketInfo
  pub count : ℕ
  pub capacity : ℕ

pub bs_empty : BracketStack → Bool
bs_empty s = s.count == 0

pub bs_pop : BracketStack → Run (Option (BracketInfo × BracketStack))
bs_pop s =
    if s.count == 0
    then ok none
    else do x ← load s.data_ (s.count - 1); ok (some (x, record s { count = s.count - 1 }))

module _ (memory : Memory BracketInfo) where
  pub bs_init : ℕ → Run BracketStack
  bs_init capacity = elim (memory.malloc capacity) [
    | none ↦ exited
    | some b ↦ ok (record { data_ = b; count = 0; capacity = capacity })
  ]

  -- `s->capacity *= 2` and the `realloc`, whose result is not tested.
  pub grow : BracketStack → Run BracketStack
  grow s = do
    doubled ← int_result (s.capacity * 2)
    ok (record s { data_ = or_null (memory.realloc s.data_ doubled); capacity = doubled })

  -- `if (s->top >= s->capacity - 1)`
  pub bs_push : BracketStack → BracketInfo → Run BracketStack
  unfolding grow
  bs_push s bi = do
    r ← if leb s.capacity s.count then grow s else ok s
    a ← store r.data_ r.count bi
    ok (record r { data_ = a; count = r.count + 1 })

abbrev pub is_open : ℕ → Bool
is_open c = c == b'(' || (c == b'[' || c == b'{')

abbrev pub is_close : ℕ → Bool
is_close c = c == b')' || (c == b']' || c == b'}')

abbrev pub matching_open : ℕ → ℕ
matching_open c =
    if c == b')' then b'(' else if c == b']' then b'[' else if c == b'}' then b'{' else 0

-- The messages, with what they are formatted from: a closing bracket that nothing opens, one that
-- closes another bracket, and a bracket that is never closed.
pub data ErrorMessage : Type 0 where
  no_message : ErrorMessage
  unopened : ℕ → ErrorMessage
  mismatched : BracketInfo → BracketInfo → ErrorMessage
  unclosed : BracketInfo → ErrorMessage

pub record CheckResult : Type 0 where
  pub is_ok : Bool
  pub error_line : ℕ
  pub error_col : ℕ
  pub error_msg : ErrorMessage

abbrev pub accepted : CheckResult
accepted = record { is_ok = true; error_line = 0; error_col = 0; error_msg = no_message }

abbrev pub rejected : ℕ → ℕ → ErrorMessage → CheckResult
rejected line col msg = record {
  is_ok = false;
  error_line = line;
  error_col = col;
  error_msg = msg;
}

-- After the loop: a bracket that is left on the stack is an error.
pub finish : BracketStack → Run CheckResult
finish s = if bs_empty s then ok accepted else do
  popped ← bs_pop s
  ok (elim popped [ none ↦ accepted | some (x, s') ↦ rejected x.line x.col (unclosed x) ])

module _ (memory : Memory BracketInfo) where
  -- The loop over the bytes before the final zero.
  pub check_loop : List ℕ → BracketStack → ℕ → ℕ → Run CheckResult
  check_loop [] s line col = finish s
  check_loop (c ∷ p) s line col =
      let newline = check_loop p s (line + 1) 1 in
      let here : BracketInfo = record { ch = c; line = line; col = col } in
      let opened = bs_push memory s here >>= λ s'. check_loop p s' line (col + 1) in
      let closed : Run CheckResult = bs_pop s >>= λ popped. elim popped [
        | none ↦ ok (rejected line col (unopened c))
        | some (x, s') ↦
            let rest = check_loop p s' line (col + 1) in
            if x.ch == matching_open c then rest else ok (rejected line col (mismatched x here))
      ] in
      let other = check_loop p s line (col + 1) in
      if c == b'\n'
      then newline
      else if is_open c
      then opened
      else if is_close c
      then closed
      else other

  unfoldable pub check_brackets : List ℕ → Run CheckResult
  unfolding check_loop
  check_brackets source = bs_init memory 64 >>= λ s. check_loop source s 1 1
