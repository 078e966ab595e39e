-- ===== src/Tests/Lists.antt =====
-- doubly_linked_list.c, the deque of priority_queue.c and dynamic_array.c.
use textbook_c_ds_deep.Prelude.{
  ℕ, ◌*◌, ◌≡◌, refl, none, some, [], ◌∷◌, ◌++◌, arith, ◌==◌, if◌then◌else◌,
}
use textbook_c_ds_deep.Run.{Returns}
use textbook_c_ds_deep.Links.{Links, Task, list_move_tail, task_list_insert_sorted}
use textbook_c_ds_deep.Links.Route.{AllApart, Linked, stop, step}
use textbook_c_ds_deep.Links.Insert.{IsList, IsNew}
use textbook_c_ds_deep.Links.Delete.{list_move_tail-IsList}
use textbook_c_ds_deep.Links.Priority.{inserted, task_list_insert_sorted-IsList}
use textbook_c_ds_deep.Deque.{
  Deque, deque_push_front, deque_push_back, deque_pop_front, deque_pop_back,
}
use textbook_c_ds_deep.Deque.Ends.{Holds, deque_push-Holds}
use textbook_c_ds_deep.Deque.Pop.{first_of, rest_of, last_of, before_last, deque_pop-Holds}
use textbook_c_ds_deep.DynamicArray.{DynArray, da_push}
use textbook_c_ds_deep.DynamicArray.Amortised.{IsValid, Pushed, da_push-Pushed}
use textbook_c_ds_deep.Tests.Allocators.{plenty}

-- The sentinel 8, its members 16 and 24, and the list head 32 on its own.
abbrev memory : Links
memory c =
    if c == 8
    then some (record { prev = 24; next = 16 })
    else if c == 16
    then some (record { prev = 8; next = 24 })
    else if c == 24
    then some (record { prev = 16; next = 8 })
    else if c == 32
    then some (record { prev = 32; next = 32 })
    else none

abbrev tasks : ℕ → Task
tasks c = record { priority = c; task_name = [] }

after_head : Linked memory 8 16
after_head = record { from = refl; to = refl; forth = refl; back = refl }

between : Linked memory 16 24
between = record { from = refl; to = refl; forth = refl; back = refl }

before_head : Linked memory 24 8
before_head = record { from = refl; to = refl; forth = refl; back = refl }

memory-IsList : IsList memory 8 (16 ∷ 24 ∷ [])
unfolding AllApart
memory-IsList = record {
  ring = step after_head (step between (step before_head stop));
  apart = (refl, (refl, (refl, tt)));
}

memory-IsNew : IsNew memory 8 (16 ∷ 24 ∷ []) 32
memory-IsNew = record { ready = refl; outside = refl }

list_move_tail-IsList_example :
    Returns (λ h. IsList h 8 ([] ++ (24 ∷ []) ++ 16 ∷ [])) (list_move_tail memory 16 8)
list_move_tail-IsList_example = list_move_tail-IsList 16 [] (24 ∷ []) memory-IsList

task_list_insert_sorted-IsList_example :
    Returns
      (λ h. IsList h 8 (inserted tasks 32 (16 ∷ 24 ∷ [])))
      (task_list_insert_sorted 3 memory tasks 8 32)
task_list_insert_sorted-IsList_example =
    task_list_insert_sorted-IsList tasks (16 ∷ 24 ∷ []) memory-IsList memory-IsNew

-- The task of the highest priority comes first.
inserted_first : inserted tasks 32 (16 ∷ 24 ∷ []) ≡ 32 ∷ 16 ∷ 24 ∷ []
unfolding inserted
inserted_first = refl

abbrev queue : Deque
queue = record { links = memory; data_ = λ c. c * 10; sentinel = 8; size = 2 }

queue-Holds : Holds queue (160 ∷ 240 ∷ [])
queue-Holds = (16 ∷ 24 ∷ [], record { list = memory-IsList; size = refl; null = refl }, refl)

deque_push-Holds_example :
    Returns (λ e. Holds e (7 ∷ 160 ∷ 240 ∷ [])) (deque_push_front (some 40) queue 7)
    × Returns (λ e. Holds e ((160 ∷ 240 ∷ []) ++ 7 ∷ [])) (deque_push_back (some 40) queue 7)
deque_push-Holds_example =
    deque_push-Holds queue 40 7 (160 ∷ 240 ∷ []) queue-Holds refl refl (omega arith)

deque_pop-Holds_example :
    Returns
      (λ out. (out.0 ≡ first_of (160 ∷ 240 ∷ [])) × Holds out.1 (rest_of (160 ∷ 240 ∷ [])))
      (deque_pop_front queue)
    × Returns
        (λ out. (out.0 ≡ last_of (160 ∷ 240 ∷ [])) × Holds out.1 (before_last (160 ∷ 240 ∷ [])))
        (deque_pop_back queue)
deque_pop-Holds_example = deque_pop-Holds queue (160 ∷ 240 ∷ []) queue-Holds (omega arith)

abbrev full : DynArray
full = record { data_ = 5 ∷ 6 ∷ []; size = 2; capacity = 2; total_copies = 1 }

full-IsValid : IsValid full
full-IsValid = record { block = refl; bounded = omega arith; copied = refl; half = omega arith }

da_push-Pushed_example : Returns (Pushed full 7) (da_push (plenty 0) full 7)
unfolding plenty
da_push-Pushed_example =
    da_push-Pushed (plenty 0) full 7 full-IsValid (omega arith) (λ n. (_, refl))
