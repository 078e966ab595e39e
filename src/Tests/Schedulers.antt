-- ===== src/Tests/Schedulers.antt =====
-- event_scheduler.c, task_scheduler.c and the priority queue of priority_queue.c.
use mathlib.Core.List.{map}
use textbook_c_ds_deep.Prelude.{ℕ, ◌≡◌, refl, inl, inr, true, none, [], ◌∷◌, arith, replicate}
use textbook_c_ds_deep.Run.{ok, ◌>>=◌, Returns}
use textbook_c_ds_deep.Array.{at, load, store, swap}
use textbook_c_ds_deep.Heap.{sift_up, sift_down, order_default}
use textbook_c_ds_deep.EventScheduler
use textbook_c_ds_deep.EventScheduler.{
  Event, EventHeap, by_trigger, blank_event, scheduler_add, scheduler_tick, pending,
}
use textbook_c_ds_deep.EventScheduler.Tick.{Ticked, scheduler_tick_runs}
use textbook_c_ds_deep.TaskScheduler
use textbook_c_ds_deep.TaskScheduler.{
  Task, Scheduler, blank_task, by_priority, sched_less, sched_submit, sched_run_all, run_task,
}
use textbook_c_ds_deep.TaskScheduler.Submit.{
  Submitted, Refused, sched_submit_queues, sched_submit-Refused,
}
use textbook_c_ds_deep.TaskScheduler.RunAll.{RanAll, sched_run_all_drains}
use textbook_c_ds_deep.PriorityQueue
use textbook_c_ds_deep.PriorityQueue.{PqItem, PriorityQueue, new_item, pq_push, pq_pop}
use textbook_c_ds_deep.PriorityQueue.Ops.{Popped, pq_pop_removes}
use textbook_c_ds_deep.Tests.Allocators.{plenty, scarce}

abbrev event : ℕ → Event
event time = record blank_event { trigger_at = time }

-- Two events wait, in the 256 cells of the heap.
abbrev agenda : EventHeap
agenda = record { data_ = event 1002 ∷ event 1005 ∷ replicate 254 blank_event; size = 2 }

agenda-IsValid : EventScheduler.IsValid agenda
unfolding at
agenda-IsValid = record { heap = grind arith; block = refl; bounded = omega arith }

scheduler_tick_runs_example :
    Returns (λ r. Ticked agenda 1003 r × EventScheduler.IsValid r.1) (scheduler_tick agenda 1003)
scheduler_tick_runs_example = scheduler_tick_runs agenda 1003 agenda-IsValid

abbrev task : ℕ → ℕ → Task
task priority seq = record blank_task { priority = priority; seq = seq }

-- Two tasks of one priority, and a full block.
abbrev twins : Scheduler
twins = record { heap = task 2 0 ∷ task 2 1 ∷ []; size = 2; capacity = 2 }

twins-IsValid : TaskScheduler.IsValid twins
unfolding at sched_less
twins-IsValid = grind arith

-- The first submitted runs first, behind an urgent task.
order_of_runs :
    (do
      (done, s, n) ← sched_submit (plenty blank_task) twins 2 true 0 [] (λ a. 1) 0 none
      (ran, s) ← sched_run_all s
      ok ran)
    ≡ ok (map run_task (record (task 0 2) { execute = λ a. 1 } ∷ task 2 0 ∷ task 2 1 ∷ []))
unfolding sched_submit sched_run_all sched_less sift_up sift_down load store swap plenty
order_of_runs = refl

sched_run_all_drains_example : Returns (RanAll twins) (sched_run_all twins)
sched_run_all_drains_example = sched_run_all_drains twins twins-IsValid

sched_submit_queues_example :
    Returns
      (Submitted twins 2 (record {
        priority = 1;
        seq = 2;
        name = 65 ∷ [];
        status = TaskScheduler.pending;
        arg = 7;
        execute = λ a. 0;
        on_done = none;
      }))
      (sched_submit (plenty blank_task) twins 2 true 1 (65 ∷ []) (λ a. 0) 7 none)
unfolding plenty
sched_submit_queues_example =
    sched_submit_queues (plenty blank_task) twins 2 1 (65 ∷ []) (λ a. 0) 7 none twins-IsValid
      (inr (refl, omega arith, task 2 0 ∷ task 2 1 ∷ blank_task ∷ blank_task ∷ [], refl))

sched_submit-Refused_example :
    Returns (Refused twins 2) (sched_submit (scarce Task) twins 2 true 1 [] (λ a. 0) 7 none)
unfolding scarce
sched_submit-Refused_example =
    sched_submit-Refused (scarce Task) twins 2 1 [] (λ a. 0) 7 none true twins-IsValid
      (inl (refl, refl))

abbrev item : ℕ → PqItem
item priority = record { priority = priority; name = [] }

abbrev queue : PriorityQueue
queue = record { heap = item 1 ∷ item 4 ∷ []; size = 2; capacity = 2 }

queue-IsValid : PriorityQueue.IsValid queue
unfolding at
queue-IsValid = grind arith

pq_pop_removes_example : Returns (Popped queue) (pq_pop queue)
pq_pop_removes_example = pq_pop_removes queue queue-IsValid (omega arith)
