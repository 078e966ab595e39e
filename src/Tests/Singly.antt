-- ===== src/Tests/Singly.antt =====
-- singly_linked_list.c.
use textbook_c_ds_deep.Prelude.{
  ◌≡◌, refl, true, false, none, some, [], ◌∷◌, ◌++◌, arith, ◌==◌, if◌then◌else◌,
}
use textbook_c_ds_deep.Run.{ok, Returns, ◌>>=◌}
use textbook_c_ds_deep.SinglyLinked.{
  Nodes, SinglyLinkedList, put_node, read_next, read_datum, write_next, node_new, advance,
  sll_insert_at, list_remove_loop, sll_remove, sll_prepend, sll_append, sll_reverse, cycle_loop,
  sll_has_cycle,
}
use textbook_c_ds_deep.SinglyLinked.Segment.{end_, link, HasNodes, Holds}
use textbook_c_ds_deep.SinglyLinked.Grow.{sll_insert-Holds}
use textbook_c_ds_deep.SinglyLinked.Reverse.{sll_reverse-Holds}
use textbook_c_ds_deep.SinglyLinked.Cycle.{sll_has_cycle-none}

-- Two nodes, at 16 and 24.
abbrev memory : Nodes
memory c =
    if c == 16
    then some (record { datum = 160; next = 24 })
    else if c == 24
    then some (record { datum = 240; next = 0 })
    else none

abbrev pair : SinglyLinkedList
pair = record { nodes = memory; head = 16; size = 2 }

pair-HasNodes : HasNodes pair (16 ∷ 24 ∷ [])
pair-HasNodes = record {
  chain = link refl refl refl (link refl refl refl end_);
  size = refl;
  null = refl;
}

pair-Holds : Holds pair (160 ∷ 240 ∷ [])
pair-Holds = (16 ∷ 24 ∷ [], pair-HasNodes, refl)

-- A ring of two nodes.
abbrev ring : SinglyLinkedList
ring = record pair { nodes = put_node memory 24 (some (record { datum = 240; next = 16 })) }

ring_found : sll_has_cycle 3 ring ≡ ok true
unfolding sll_has_cycle cycle_loop read_next put_node
ring_found = refl

-- The second node goes, and so does its address.
second_removed : (sll_remove 3 ◌==◌ pair 240 >>= λ (r, l). read_next l.nodes 16) ≡ ok 0
unfolding sll_remove list_remove_loop read_next read_datum write_next put_node
second_removed = refl

inserted_between : (sll_insert_at (some 40) pair 1 7 >>= λ (r, l). advance 2 l.nodes l.head) ≡ ok 24
unfolding sll_insert_at advance node_new read_next write_next put_node
inserted_between = refl

sll_insert-Holds_example :
    Returns (λ out. Holds out (7 ∷ 160 ∷ 240 ∷ [])) (sll_prepend (some 40) pair 7)
    × Returns (λ out. Holds out ((160 ∷ 240 ∷ []) ++ 7 ∷ [])) (sll_append 2 (some 40) pair 7)
sll_insert-Holds_example =
    sll_insert-Holds pair 40 7 (160 ∷ 240 ∷ []) pair-Holds refl refl (omega arith)

sll_reverse-Holds_example : Returns (λ out. Holds out (240 ∷ 160 ∷ [])) (sll_reverse 3 pair)
sll_reverse-Holds_example = sll_reverse-Holds pair (160 ∷ 240 ∷ []) pair-Holds

sll_has_cycle-none_example : sll_has_cycle 3 pair ≡ ok false
sll_has_cycle-none_example = sll_has_cycle-none pair (16 ∷ 24 ∷ []) pair-HasNodes
