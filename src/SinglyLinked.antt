-- ===== src/SinglyLinked.antt =====
-- singly_linked_list.c: nodes at addresses. NULL is the address 0, which holds no node; a datum is a
-- pointer, so an address too. What malloc returns is an argument.
pub mod Segment
pub mod Grow
pub mod Reverse
pub mod Cycle
use textbook_c_ds_deep.Prelude.{
  ℕ, zero, suc, ◌+◌, ◌-◌, Bool, true, false, Option, none, some, ltb, ◌==◌, if◌then◌else◌, inc64,
  dec64,
}
use textbook_c_ds_deep.Run.{Run, ok, fault, exited, out_of_fuel, ◌>>=◌}

-- `data` is a word of the language: the field is `datum`.
pub record Node : Type 0 where
  pub datum : ℕ
  pub next : ℕ

-- The nodes in memory.
abbrev pub Nodes : Type 0
Nodes = ℕ → Option Node

abbrev pub is_node : Nodes → ℕ → Bool
is_node g p = elim (g p) [ none ↦ false | some n ↦ true ]

-- The fields of the node at `p`, and 0 where there is none.
abbrev pub node_next : Nodes → ℕ → ℕ
node_next g p = elim (g p) [ none ↦ 0 | some n ↦ n.next ]

abbrev pub node_datum : Nodes → ℕ → ℕ
node_datum g p = elim (g p) [ none ↦ 0 | some n ↦ n.datum ]

-- `p->next` and `p->data` as rvalues
unfoldable pub read_next : Nodes → ℕ → Run ℕ
read_next g p = if is_node g p then ok (node_next g p) else fault

unfoldable pub read_datum : Nodes → ℕ → Run ℕ
read_datum g p = if is_node g p then ok (node_datum g p) else fault

-- The node at `p` becomes `n`.
unfoldable pub put_node : Nodes → ℕ → Option Node → Nodes
put_node g p n = λ c. if c == p then n else g c

-- `p->next = q`
unfoldable pub write_next : Nodes → ℕ → ℕ → Run Nodes
write_next g p q =
    if is_node g p
    then ok (put_node g p (some (record { datum = node_datum g p; next = q })))
    else fault

pub record SinglyLinkedList : Type 0 where
  pub nodes : Nodes
  pub head : ℕ
  pub size : ℕ

unfoldable pub node_new : Option ℕ → Nodes → ℕ → Run (ℕ × Nodes)
node_new none g d = exited
node_new (some p) g d = ok (p, put_node g p (some (record { datum = d; next = 0 })))

unfoldable pub sll_init : SinglyLinkedList → SinglyLinkedList
sll_init list = record list { head = 0; size = 0 }

unfoldable pub sll_prepend : Option ℕ → SinglyLinkedList → ℕ → Run SinglyLinkedList
sll_prepend room list d = do
  (n, fresh) ← node_new room list.nodes d
  g ← write_next fresh n list.head
  ok (record { nodes = g; head = n; size = inc64 list.size })

-- `while (cur->next) cur = cur->next`, and the write behind it.
unfoldable pub append_loop : ℕ → Nodes → ℕ → ℕ → Run Nodes
append_loop zero g cur n = out_of_fuel
append_loop (suc fuel) g cur n = read_next g cur >>= λ q.
    let on = append_loop fuel g q n in if q == 0 then write_next g cur n else on

unfoldable pub sll_append : ℕ → Option ℕ → SinglyLinkedList → ℕ → Run SinglyLinkedList
sll_append fuel room list d = node_new room list.nodes d >>= λ (n, fresh).
    let first : SinglyLinkedList = record { nodes = fresh; head = n; size = inc64 list.size } in
    let behind : Run SinglyLinkedList = append_loop fuel fresh list.head n >>= λ g.
    ok (record list { nodes = g; size = inc64 list.size }) in
    if list.head == 0 then ok first else behind

-- `for (i = 0; i < index - 1; i++) cur = cur->next`, with `rounds` rounds left
unfoldable pub advance : ℕ → Nodes → ℕ → Run ℕ
advance zero g cur = ok cur
advance (suc rounds) g cur = do q ← read_next g cur; advance rounds g q

unfoldable pub sll_insert_at : Option ℕ → SinglyLinkedList → ℕ → ℕ → Run (Bool × SinglyLinkedList)
sll_insert_at room list index d =
    let front : Run (Bool × SinglyLinkedList) = sll_prepend room list d >>= λ l. ok (true, l) in
    let inner : Run (Bool × SinglyLinkedList) = advance (index - 1) list.nodes list.head >>= λ cur.
    node_new room list.nodes d >>= λ (n, fresh). read_next fresh cur >>= λ q.
    write_next fresh n q >>= λ a.
    write_next a cur n >>= λ b. ok (true, record list { nodes = b; size = inc64 list.size }) in
    if ltb list.size index then ok (false, list) else if index == 0 then front else inner

-- The loop of `sll_remove`. `before` is the node whose `next` the double pointer stands for, or `none`
-- for the head of the list.
unfoldable pub list_remove_loop :
    ℕ → (cmp : ℕ → ℕ → Bool) → SinglyLinkedList → ℕ → Option ℕ → ℕ → Run (Bool × SinglyLinkedList)
list_remove_loop zero cmp list d before cur = out_of_fuel
list_remove_loop (suc fuel) cmp list d before cur =
    let on = read_next list.nodes cur >>= λ q. list_remove_loop fuel cmp list d (some cur) q in
    let unlinked : Run SinglyLinkedList = read_next list.nodes cur >>= λ q. elim before [
      | none ↦ ok (record list { head = q })
      | some b ↦ write_next list.nodes b q >>= λ g. ok (record list { nodes = g })
    ] in
    let taken : Run (Bool × SinglyLinkedList) = unlinked >>= λ l.
    ok (true, record l { nodes = put_node l.nodes cur none; size = dec64 list.size }) in
    let tested = read_datum list.nodes cur >>= λ x. if cmp x d then taken else on in
    if cur == 0 then ok (false, list) else tested

-- `cmp` tells whether the comparator returns 0.
unfoldable pub sll_remove :
    ℕ → (cmp : ℕ → ℕ → Bool) → SinglyLinkedList → ℕ → Run (Bool × SinglyLinkedList)
sll_remove fuel cmp list d = list_remove_loop fuel cmp list d none list.head

unfoldable pub reverse_links : ℕ → Nodes → ℕ → ℕ → Run (ℕ × Nodes)
reverse_links zero g prev cur = out_of_fuel
reverse_links (suc fuel) g prev cur =
    let round = read_next g cur >>= λ next_node.
    write_next g cur prev >>= λ h. reverse_links fuel h cur next_node in
    if cur == 0 then ok (prev, g) else round

unfoldable pub sll_reverse : ℕ → SinglyLinkedList → Run SinglyLinkedList
sll_reverse fuel list = do
  (head, g) ← reverse_links fuel list.nodes 0 list.head
  ok (record list { nodes = g; head = head })

-- The loop of `sll_has_cycle`: the tortoise and the hare.
unfoldable pub cycle_loop : ℕ → Nodes → ℕ → ℕ → Run Bool
cycle_loop zero g slow fast = out_of_fuel
cycle_loop (suc fuel) g slow fast =
    let round = λ (q : ℕ). read_next g slow >>= λ s.
    read_next g q >>= λ f. let on = cycle_loop fuel g s f in if s == f then ok true else on in
    let checked = read_next g fast >>= λ q. if q == 0 then ok false else round q in
    if fast == 0 then ok false else checked

unfoldable pub sll_has_cycle : ℕ → SinglyLinkedList → Run Bool
sll_has_cycle fuel list = cycle_loop fuel list.nodes list.head list.head

-- The loop of `sll_destroy`.
unfoldable pub free_loop : ℕ → Nodes → ℕ → Run Nodes
free_loop zero g cur = out_of_fuel
free_loop (suc fuel) g cur =
    let round = read_next g cur >>= λ next. free_loop fuel (put_node g cur none) next in
    if cur == 0 then ok g else round

unfoldable pub sll_destroy : ℕ → SinglyLinkedList → Run SinglyLinkedList
sll_destroy fuel list = do
  g ← free_loop fuel list.nodes list.head
  ok (record { nodes = g; head = 0; size = 0 })
