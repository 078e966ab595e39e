-- ===== src/Links.antt =====
-- doubly_linked_list.c: circular lists with a sentinel, linked through the list heads that their
-- elements contain. An address holds a list head or nothing; NULL is the address 0, which holds
-- nothing. A task is found at the address of its list head, so that container_of is the identity.
pub mod Route
pub mod Insert
pub mod Delete
pub mod Priority
use textbook_c_ds_deep.Prelude.{
  ℕ, zero, suc, ◌+◌, Bool, true, false, Option, none, some, List, ltb, ◌==◌, if◌then◌else◌, strncpy,
  replicate,
}
use textbook_c_ds_deep.Run.{Run, ok, fault, exited, out_of_fuel, ◌>>=◌, check}

-- `struct list_head`
pub record ListHead : Type 0 where
  pub prev : ℕ
  pub next : ℕ

-- The list heads in memory.
abbrev pub Links : Type 0
Links = ℕ → Option ListHead

-- What an address holds changes to `l`.
unfoldable pub overwrite : Links → ℕ → ListHead → Links
overwrite g a l = λ c. if c == a then some l else g c

abbrev pub alive : Links → ℕ → Bool
alive g a = elim (g a) [ none ↦ false | some l ↦ true ]

-- `a->next` and `a->prev`, and 0 where `a` holds no list head.
abbrev pub next_of : Links → ℕ → ℕ
next_of g a = elim (g a) [ none ↦ 0 | some l ↦ l.next ]

abbrev pub prev_of : Links → ℕ → ℕ
prev_of g a = elim (g a) [ none ↦ 0 | some l ↦ l.prev ]

-- `a->next` and `a->prev` as rvalues
unfoldable pub get_next : Links → ℕ → Run ℕ
get_next g a = if alive g a then ok (next_of g a) else fault

unfoldable pub get_prev : Links → ℕ → Run ℕ
get_prev g a = if alive g a then ok (prev_of g a) else fault

-- `a->next = v` and `a->prev = v`
unfoldable pub set_next : Links → ℕ → ℕ → Run Links
set_next g a v =
    if alive g a then ok (overwrite g a (record { prev = prev_of g a; next = v })) else fault

unfoldable pub set_prev : Links → ℕ → ℕ → Run Links
set_prev g a v =
    if alive g a then ok (overwrite g a (record { prev = v; next = next_of g a })) else fault

unfoldable pub list_init : Links → ℕ → Run Links
list_init g head = do h ← set_prev g head head; set_next h head head

unfoldable pub list_empty : Links → ℕ → Run Bool
list_empty g head = do first ← get_next g head; ok (first == head)

-- `__list_add`
unfoldable pub list_add_between : Links → ℕ → ℕ → ℕ → Run Links
list_add_between g new_node prev next = do
  a ← set_prev g next new_node
  b ← set_next a new_node next
  c ← set_prev b new_node prev
  set_next c prev new_node

unfoldable pub list_add : Links → ℕ → ℕ → Run Links
list_add g new_node head = do first ← get_next g head; list_add_between g new_node head first

unfoldable pub list_add_tail : Links → ℕ → ℕ → Run Links
list_add_tail g new_node head = do last ← get_prev g head; list_add_between g new_node last head

-- The two writes that bypass a node.
unfoldable pub bypass : Links → ℕ → Run Links
bypass g entry = do
  before ← get_prev g entry
  after ← get_next g entry
  a ← set_next g before after
  next ← get_next a entry
  prev ← get_prev a entry
  set_prev a next prev

unfoldable pub list_del : Links → ℕ → Run Links
list_del g entry = do a ← bypass g entry; b ← set_prev a entry 0; set_next b entry 0

unfoldable pub list_move_tail : Links → ℕ → ℕ → Run Links
list_move_tail g list head = do a ← list_del g list; list_add_tail a list head

-- `Task`, but for its list head. The priority is an int, as its value plus 2 ^ 31.
pub record Task : Type 0 where
  pub priority : ℕ
  pub task_name : List ℕ

-- `task_new` with what malloc returns; `exit(1)` where that is NULL. Of the 64 bytes of the name 63 are
-- copied or padded, and the last is set to 0.
unfoldable pub task_new : Links → Option ℕ → ℕ → List ℕ → Run (ℕ × Task × Links)
task_new g none priority name = exited
task_new g (some t) priority name = do
  h ← list_init (overwrite g t (record { prev = 0; next = 0 })) t
  ok (t, record { priority = priority; task_name = strncpy name (replicate 64 0) 63 }, h)

-- `task_list_insert_sorted` from `pos` on.
unfoldable pub insert_loop : ℕ → Links → (ℕ → Task) → ℕ → ℕ → ℕ → Run Links
insert_loop zero g tasks head new_task pos = out_of_fuel
insert_loop (suc fuel) g tasks head new_task pos =
    let before = get_prev g pos >>= λ p. list_add_between g new_task p pos in
    let later = get_next g pos >>= λ q. insert_loop fuel g tasks head new_task q in
    if pos == head
    then list_add_tail g new_task head
    else if ltb (tasks pos).priority (tasks new_task).priority
    then before
    else later

unfoldable pub task_list_insert_sorted : ℕ → Links → (ℕ → Task) → ℕ → ℕ → Run Links
task_list_insert_sorted fuel g tasks head new_task = do
  first ← get_next g head
  insert_loop fuel g tasks head new_task first
