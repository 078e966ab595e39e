-- ===== src/Tests/Threads.antt =====
-- lockfree_stack.c, with two threads.
use textbook_c_ds_deep.Prelude.{ℕ, ◌≡◌, refl, false, some, List, [], ◌∷◌}
use textbook_c_ds_deep.LockFree.{
  idle, push_load, push_link, push_cas, pop_load, pop_next, pop_cas, State, goes, set_link,
  alloc_node, lf_stack_is_empty, Outcome, silent, pushed, popped, push_begins, push_loads,
  push_links, push_succeeds, push_retries, pop_begins, pop_loads, pop_reads, pop_succeeds,
  lf_stack_init, Run_, start, then_,
}
use textbook_c_ds_deep.LockFree.Keeps.{Holds}
use textbook_c_ds_deep.LockFree.Linear.{effect, then_effect, replay, lf_stack_run-Holds}

-- Both threads link their node to the empty stack; the second one fails, and tries again.
abbrev both_linked : State
both_linked =
    let a = goes (alloc_node lf_stack_init) 0 (push_load 1) in
    let b = goes (alloc_node a) 1 (push_load 2) in
    let c = goes b 0 (push_link 1 0) in
    let d = goes c 1 (push_link 2 0) in
    let e = goes (set_link d 1 0) 0 (push_cas 1 0) in goes (set_link e 2 0) 1 (push_cas 2 0)

both_linked_run :
    Run_ lf_stack_init (silent ∷ silent ∷ silent ∷ silent ∷ silent ∷ silent ∷ []) both_linked
unfolding goes set_link lf_stack_init
both_linked_run =
    then_
      (then_
        (then_
          (then_ (then_ (then_ start (push_begins 0 refl)) (push_begins 1 refl))
            (push_loads 0 1 refl))
          (push_loads 1 2 refl))
        (push_links 0 1 0 refl))
      (push_links 1 2 0 refl)

abbrev both_pushed : State
both_pushed =
    let a = goes (record both_linked { head = 1 }) 0 idle in
    let b = goes a 1 (push_load 2) in
    let c = goes b 1 (push_link 2 1) in
    let d = goes (set_link c 2 1) 1 (push_cas 2 1) in goes (record d { head = 2 }) 1 idle

abbrev pushes : List Outcome
pushes =
    pushed 2
    ∷ silent
    ∷ silent
    ∷ silent
    ∷ pushed 1
    ∷ silent
    ∷ silent
    ∷ silent
    ∷ silent
    ∷ silent
    ∷ silent
    ∷ []

both_pushed_run : Run_ lf_stack_init pushes both_pushed
unfolding goes set_link lf_stack_init
both_pushed_run =
    then_
      (then_
        (then_
          (then_ (then_ both_linked_run (push_succeeds 0 1 0 refl refl)) (push_retries 1 2 0 refl))
          (push_loads 1 2 refl))
        (push_links 1 2 1 refl))
      (push_succeeds 1 2 1 refl refl)

-- Then the first thread pops the node of the second.
abbrev one_left : State
one_left =
    let a = goes both_pushed 0 pop_load in
    let b = goes a 0 (pop_next 2) in
    let c = goes b 0 (pop_cas 2 1) in goes (record c { head = 1 }) 0 idle

abbrev all_steps : List Outcome
all_steps = popped 2 ∷ silent ∷ silent ∷ silent ∷ pushes

one_left_run : Run_ lf_stack_init all_steps one_left
unfolding goes set_link lf_stack_init
one_left_run =
    then_
      (then_ (then_ (then_ both_pushed_run (pop_begins 0 refl)) (pop_loads 0 refl refl))
        (pop_reads 0 2 refl))
      (pop_succeeds 0 2 1 refl refl)

all_steps_replayed : replay all_steps ≡ some (1 ∷ [])
unfolding replay then_effect effect
all_steps_replayed = refl

one_left_not_empty : lf_stack_is_empty one_left ≡ false
unfolding lf_stack_is_empty goes set_link lf_stack_init
one_left_not_empty = refl

lf_stack_run-Holds_example : (xs : List ℕ) × (replay all_steps ≡ some xs) × Holds one_left xs
lf_stack_run-Holds_example = lf_stack_run-Holds all_steps one_left one_left_run
