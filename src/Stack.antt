-- ===== src/Stack.antt =====
-- stack.c: a growable stack of pointers, and the brackets that are checked with it.
pub mod Postfix
pub mod Evaluate
pub mod Lifo
pub mod Brackets
use textbook_c_ds_deep.Prelude.{
  ℕ, zero, suc, ◌+◌, ◌-◌, ◌*◌, ◌≤◌, ◌<◌, ◌≡◌, Bool, true, false, ◌&&◌, ◌||◌, not, Option, none,
  some, List, [], ◌∷◌, leb, ◌==◌, if◌then◌else◌, length,
}
use textbook_c_ds_deep.Run.{Run, ok, fault, ◌>>=◌, int_result, check}
use textbook_c_ds_deep.Memory.{Memory}
use textbook_c_ds_deep.Array.{load, store}

-- `count` is `top + 1`.
pub record ArrayStack {ℓ} (A : Type ℓ) : Type ℓ where
  pub data_ : List A
  pub count : ℕ
  pub capacity : ℕ

module _ {ℓ} {A : Type ℓ} where
  -- The end of `astack_push`, with a free cell.
  pub put : ArrayStack A → A → Run (Bool × ArrayStack A)
  put s item = do
    a ← store s.data_ s.count item
    ok (true, record s { data_ = a; count = s.count + 1 })

  -- `none` is NULL.
  unfoldable pub astack_pop : ArrayStack A → Run (Option A × ArrayStack A)
  astack_pop s =
      if s.count == 0
      then ok (none, s)
      else do item ← load s.data_ (s.count - 1); ok (some item, record s { count = s.count - 1 })

  unfoldable pub astack_peek : ArrayStack A → Run (Option A)
  astack_peek s =
      if s.count == 0 then ok none else do item ← load s.data_ (s.count - 1); ok (some item)

  abbrev pub astack_empty : ArrayStack A → Bool
  astack_empty s = s.count == 0

  pub astack_size : ArrayStack A → ℕ
  astack_size s = s.count

module _ {ℓ} {A : Type ℓ} (memory : Memory A) where
  unfoldable pub astack_init : ℕ → Option (ArrayStack A)
  astack_init capacity = elim (memory.malloc capacity) [
    | none ↦ none
    | some b ↦ some (record { data_ = b; count = 0; capacity = capacity })
  ]

  -- `if (top >= capacity - 1)`
  unfoldable pub astack_push : ArrayStack A → A → Run (Bool × ArrayStack A)
  unfolding put
  astack_push s item =
      let grown : Run (Bool × ArrayStack A) = int_result (s.capacity * 2) >>= λ new_cap.
      elim (memory.realloc s.data_ new_cap) [
        | none ↦ ok (false, s)
        | some b ↦ put (record s { data_ = b; capacity = new_cap }) item
      ] in
      if leb s.capacity s.count then grown else put s item

-- The tests of `check_brackets` on a character.
abbrev pub opens : ℕ → Bool
opens c = c == b'(' || (c == b'[' || c == b'{')

abbrev pub closes : ℕ → Bool
closes c = c == b')' || (c == b']' || c == b'}')

abbrev pub mismatch : ℕ → ℕ → Bool
mismatch c top =
    (c == b')' && not (top == b'('))
    || ((c == b']' && not (top == b'[')) || (c == b'}' && not (top == b'{')))

module _ (memory : Memory ℕ) where
  -- The loop of `check_brackets`, with its result. What `astack_push` returns is not tested.
  pub brackets_loop : List ℕ → ArrayStack ℕ → Run Bool
  brackets_loop [] st = ok (astack_empty st)
  brackets_loop (c ∷ s) st =
      let opened = astack_push memory st c >>= λ (_, st'). brackets_loop s st' in
      let closed : Run Bool = if astack_empty st then ok false else do
        (item, st') ← astack_pop st
        top ← check item
        let rest = brackets_loop s st'
        if mismatch c top then ok false else rest
      in let other = brackets_loop s st in
        if opens c then opened else if closes c then closed else other

  -- Without memory for the stack its fields are not set, and `check_brackets` reads them all the same.
  unfoldable pub check_brackets : List ℕ → Run Bool
  unfolding brackets_loop
  check_brackets s = elim (astack_init memory 64) [ none ↦ fault | some st ↦ brackets_loop s st ]

pub record IsValid {ℓ} {A : Type ℓ} (s : ArrayStack A) : Type 0 where
  pub block : length s.data_ ≡ s.capacity
  pub bounded : s.count ≤ s.capacity
  pub nonzero : 0 < s.capacity
