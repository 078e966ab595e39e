-- ===== src/TaskScheduler.antt =====
-- task_scheduler.c: tasks in a growable heap, by priority and then by the order of submission.
pub mod Submit
pub mod RunAll
use textbook_c_ds_deep.Prelude.{
  ℕ, zero, suc, ◌+◌, ◌-◌, ◌*◌, ◌%◌, ◌^◌, ◌≤◌, ◌<◌, ◌≡◌, Bool, true, false, Option, none, some, List,
  [], ◌∷◌, ltb, leb, ◌==◌, arith, if◌then◌else◌, length, take, inc64,
}
use textbook_c_ds_deep.Run.{Run, ok, fault, out_of_fuel, ◌>>=◌}
use textbook_c_ds_deep.Memory.{Memory}
use textbook_c_ds_deep.Array.{load, store}
use textbook_c_ds_deep.Heap.{Order, sift_up, sift_down}
use textbook_c_ds_deep.Heap.Invariant.{IsHeap}

pub data TaskStatus : Type 0 where
  pending running done failed : TaskStatus

-- `priority` is the int plus 2 ^ 31; `name` is the string, less its final zero; an argument and a
-- callback are the addresses that the program passed. The result of `execute` is a 32-bit pattern.
pub record Task : Type 0 where
  pub priority : ℕ
  pub seq : ℕ
  pub name : List ℕ
  pub status : TaskStatus
  pub arg : ℕ
  pub execute : ℕ → ℕ
  pub on_done : Option ℕ

abbrev pub blank_task : Task
blank_task = record {
  priority = 0;
  seq = 0;
  name = [];
  status = pending;
  arg = 0;
  execute = λ a. 0;
  on_done = none;
}

unfoldable pub sched_less : Task → Task → Bool
sched_less a b = if a.priority == b.priority then ltb a.seq b.seq else ltb a.priority b.priority

pub sched_less_asym : (a b : Task) → sched_less a b ≡ true → sched_less b a ≡ false
unfolding sched_less
sched_less_asym a b h = ground arith

pub sched_less_negtrans :
    (a b c : Task) → sched_less b a ≡ false → sched_less c b ≡ false → sched_less c a ≡ false
unfolding sched_less
sched_less_negtrans a b c h k = ground arith

instance abbrev pub by_priority : Order Task
by_priority = record {
  less = sched_less;
  sample = blank_task;
  asym = sched_less_asym;
  negtrans = sched_less_negtrans;
  limit = 2 ^ 64;
  wide = omega arith;
}

-- The file's own `sift_up` and `sift_down`.
abbrev pub task_sift_up : List Task → ℕ → Run (List Task)
task_sift_up = sift_up

abbrev pub task_sift_down : ℕ → List Task → ℕ → Run (List Task)
task_sift_down = sift_down

-- The heap holds pointers to tasks that nothing else points to, so it is a list of tasks.
pub record Scheduler : Type 0 where
  pub heap : List Task
  pub size : ℕ
  pub capacity : ℕ

module _ (memory : Memory Task) where
  pub sched_init : ℕ → Option Scheduler
  sched_init capacity = elim (memory.malloc capacity) [
    | none ↦ none
    | some b ↦ some (record { heap = b; size = 0; capacity = capacity })
  ]

-- The task that is allocated, if `malloc` finds room, with `g_seq` as its number.
pub enqueue : Scheduler → ℕ → Bool → Task → Run (Bool × Scheduler × ℕ)
enqueue s g_seq found t =
    if found
    then (do
      a ← store s.heap s.size t
      b ← task_sift_up a s.size
      ok (true, record s { heap = b; size = s.size + 1 }, inc64 g_seq))
    else ok (false, s, g_seq)

-- The task that `sched_submit` fills in.
abbrev pub new_task : ℕ → ℕ → List ℕ → (ℕ → ℕ) → ℕ → Option ℕ → Task
new_task g_seq priority name execute arg on_done = record {
  priority = priority;
  seq = g_seq;
  name = take 63 name;
  status = pending;
  arg = arg;
  execute = execute;
  on_done = on_done;
}

module _ (memory : Memory Task) where
  -- What `realloc` does for 0 bytes is the library's choice: glibc frees the block and returns NULL.
  -- `found` says whether `malloc` finds room for one task. The result is the value returned, the
  -- scheduler and `g_seq`.
  unfoldable pub sched_submit :
      Scheduler
      → (g_seq : ℕ) → (found : Bool) → (priority : ℕ) → List ℕ
      → (ℕ → ℕ)
      → ℕ
      → Option ℕ
      → Run (Bool × Scheduler × ℕ)
  unfolding enqueue
  sched_submit s g_seq found priority name execute arg on_done =
      let t = new_task g_seq priority name execute arg on_done in
      let new_cap = s.capacity * 2 % 2 ^ 64 in
      let grown : Run (Bool × Scheduler × ℕ) = elim (memory.realloc s.heap new_cap) [
        | none ↦ ok (false, s, g_seq)
        | some b ↦ enqueue (record s { heap = b; capacity = new_cap }) g_seq found t
      ] in
      if leb s.capacity s.size then grown else enqueue s g_seq found t

-- A task that was run: the task at the end, and what `execute` returned. `on_done`, where it is not
-- NULL, is called with that result and the name.
pub record Finished : Type 0 where
  pub task : Task
  pub result : ℕ

unfoldable pub run_task : Task → Finished
run_task t = record {
  task = record t { status = if t.execute t.arg == 0 then done else failed };
  result = t.execute t.arg;
}

-- `sched_run_one`: what was run, if anything, and the scheduler.
pub sched_run_one : Scheduler → Run (Option Finished × Scheduler)
sched_run_one s =
    let last = s.size - 1 in
    let run_first : Run (Option Finished × Scheduler) = do
      t ← load s.heap 0
      x ← load s.heap last
      a ← store s.heap 0 x
      b ← if ltb 0 last then task_sift_down last a 0 else ok a
      ok (some (run_task t), record s { heap = b; size = last })
    in if s.size == 0 then ok (none, s) else run_first

run_all_loop : ℕ → Scheduler → Run (List Finished × Scheduler)
run_all_loop zero s = out_of_fuel
run_all_loop (suc fuel) s =
    let round : Run (List Finished × Scheduler) = do
      (first, s') ← sched_run_one s
      (later, s'') ← run_all_loop fuel s'
      ok (elim first [ none ↦ later | some f ↦ f ∷ later ], s'')
    in if ltb 0 s.size then round else ok ([], s)

-- Each round runs a task, and a task cannot submit another through its argument: `size + 1` rounds
-- are enough.
unfoldable pub sched_run_all : Scheduler → Run (List Finished × Scheduler)
unfolding run_all_loop sched_run_one
sched_run_all s = run_all_loop (s.size + 1) s

-- The invariant between calls. The pointers of the heap fit in the address space.
pub record IsValid (s : Scheduler) : Type 0 where
  pub order : IsHeap s.size s.heap
  pub block : length s.heap ≡ s.capacity
  pub bounded : s.size ≤ s.capacity
  pub nonzero : 0 < s.capacity
  pub small : s.capacity ≤ 2 ^ 60

abbrev pub queued : Scheduler → List Task
queued s = take s.size s.heap
