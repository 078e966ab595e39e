-- ===== src/Deque.antt =====
-- The first half of priority_queue.c: a double-ended queue, a circular list with a sentinel. A node
-- is its links and its data; a pointer is an address, and NULL is 0.
pub mod Nodes
pub mod Ends
pub mod Pop
pub mod Whole
use textbook_c_ds_deep.Prelude.{
  ℕ, zero, suc, ◌+◌, Bool, true, false, ◌||◌, Option, none, some, ◌==◌, if◌then◌else◌, dec64, inc64,
}
use textbook_c_ds_deep.Run.{Run, ok, exited, out_of_fuel, ◌>>=◌}
use textbook_c_ds_deep.Links.{Links, overwrite, get_next, get_prev, set_next, set_prev, bypass}

-- `sentinel` is the address of the sentinel; `links` and `data_` are the nodes in memory.
pub record Deque : Type 0 where
  pub links : Links
  pub data_ : ℕ → ℕ
  pub sentinel : ℕ
  pub size : ℕ

-- `dnode_new` with what malloc returns; `exit(1)` where that is NULL.
unfoldable pub dnode_new : Option ℕ → Deque → ℕ → Run (ℕ × Deque)
dnode_new none dq d = exited
dnode_new (some n) dq d = ok (
  n,
  record dq {
    links = overwrite dq.links n (record { prev = 0; next = 0 });
    data_ = λ c. if c == n then d else dq.data_ c;
  },
)

-- The four links of an insertion.
unfoldable pub link_between : Links → ℕ → ℕ → ℕ → Run Links
link_between g n prev next = do
  a ← set_prev g n prev
  b ← set_next a n next
  c ← set_next b prev n
  set_prev c next n

unfoldable pub deque_insert_between : Option ℕ → Deque → ℕ → ℕ → ℕ → Run Deque
deque_insert_between node dq d prev next = do
  (n, fresh) ← dnode_new node dq d
  links ← link_between fresh.links n prev next
  ok (record fresh { links = links; size = inc64 dq.size })

unfoldable pub deque_init : Deque → Run Deque
deque_init dq = do
  a ← set_prev dq.links dq.sentinel dq.sentinel
  b ← set_next a dq.sentinel dq.sentinel
  ok (record dq { links = b; size = 0 })

unfoldable pub deque_empty : Deque → Bool
deque_empty dq = dq.size == 0

unfoldable pub deque_push_front : Option ℕ → Deque → ℕ → Run Deque
deque_push_front node dq d = do
  first ← get_next dq.links dq.sentinel
  deque_insert_between node dq d dq.sentinel first

unfoldable pub deque_push_back : Option ℕ → Deque → ℕ → Run Deque
deque_push_back node dq d = do
  last ← get_prev dq.links dq.sentinel
  deque_insert_between node dq d last dq.sentinel

-- `free(target)`
unfoldable pub free_node : Links → ℕ → Links
free_node g target = λ c. if c == target then none else g c

-- The data of the target, or NULL, and the deque without it.
unfoldable pub deque_pop_node : Deque → ℕ → Run (ℕ × Deque)
deque_pop_node dq target =
    let taken : Run (ℕ × Deque) = do
      links ← bypass dq.links target
      ok (dq.data_ target, record dq { links = free_node links target; size = dec64 dq.size })
    in if (target == 0) || (target == dq.sentinel) then ok (0, dq) else taken

unfoldable pub deque_pop_front : Deque → Run (ℕ × Deque)
deque_pop_front dq = get_next dq.links dq.sentinel >>= λ first. deque_pop_node dq first

unfoldable pub deque_pop_back : Deque → Run (ℕ × Deque)
deque_pop_back dq = get_prev dq.links dq.sentinel >>= λ last. deque_pop_node dq last

unfoldable pub deque_peek_front : Deque → Run ℕ
deque_peek_front dq =
    let first = get_next dq.links dq.sentinel >>= λ first. ok (dq.data_ first) in
    if deque_empty dq then ok 0 else first

unfoldable pub deque_peek_back : Deque → Run ℕ
deque_peek_back dq =
    let last = get_prev dq.links dq.sentinel >>= λ last. ok (dq.data_ last) in
    if deque_empty dq then ok 0 else last

-- `while (!deque_empty(dq)) deque_pop_front(dq)`
unfoldable pub deque_destroy : ℕ → Deque → Run Deque
deque_destroy zero dq = out_of_fuel
deque_destroy (suc fuel) dq =
    let more = deque_pop_front dq >>= λ out. deque_destroy fuel out.1 in
    if deque_empty dq then ok dq else more
