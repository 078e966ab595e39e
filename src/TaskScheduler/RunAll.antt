-- ===== src/TaskScheduler/RunAll.antt =====
-- `sched_run_one` and `sched_run_all`.
use mathlib.Core.List.{map, Pairwise, append-nil}
use mathlib.Core.List.Pairwise
use textbook_c_ds_deep.Prelude.{
  ℕ, zero, suc, ◌+◌, ◌-◌, ◌≤◌, ◌<◌, ◌⊎◌, ◌≡◌, refl, ◌∙◌, sym, Option, some, none, List, [], ◌∷◌,
  Perm, arith, ltb, ◌==◌, true, false, length, set, if◌then◌else◌,
}
use textbook_c_ds_deep.Run.{ok, Returns, returns, bind, branch, weaken}
use textbook_c_ds_deep.Array.{at, load-ok, store-ok}
use textbook_c_ds_deep.Heap.{order_default, sift_down}
use textbook_c_ds_deep.Heap.Ends.{Removed, pop-Removed, sift_down_leaf}
use textbook_c_ds_deep.Heap.Drain.{Drained, Drained-none, Drained-cons}
use textbook_c_ds_deep.TaskScheduler.{
  Task, by_priority, Scheduler, Finished, run_task, sched_run_one, run_all_loop, sched_run_all,
  IsValid, queued, sched_less, done, failed,
}

-- What one run leaves: the first task has run, and the others are queued.
pub record RanOne (s : Scheduler) (r : Option Finished × Scheduler) : Type 0 where
  pub ran : r.0 ≡ some (run_task (at s.heap 0))
  pub removed : Removed (s.size - 1) s.heap r.1.heap
  pub size : r.1.size ≡ s.size - 1
  pub valid : IsValid r.1

-- `if (size > 0) sift_down(s, 0);` leaves out only a call that would change nothing.
sift_down_guarded :
    (last : ℕ) (a : List Task)
    → (if ltb 0 last then sift_down last a 0 else ok a) ≡ sift_down last a 0
sift_down_guarded zero a = sym (sift_down_leaf 0 a 0 (omega arith) (omega arith))
sift_down_guarded (suc n) a = let e : ltb 0 (suc n) ≡ true = ground arith in rw e

-- With a task queued, `sched_run_one` runs the first in the order of `sched_less`.
pub sched_run_one_runs :
    (s : Scheduler) → IsValid s → 0 < s.size → Returns (RanOne s) (sched_run_one s)
unfolding sched_run_one
sched_run_one_runs s v some_left =
    let last = s.size - 1 in
    let e : suc last ≡ s.size = omega arith in
    let inside : last < length s.heap = omega (arith, v.block, v.bounded) in
    let a = s.heap in
    let more : (s.size == 0) ≡ false = ground arith in
    rw
      (
        more,
        load-ok a 0 (omega arith),
        load-ok a last inside,
        store-ok a 0 (at a last) (omega arith),
        sift_down_guarded last (set a 0 (at a last)),
      )
      (bind (pop-Removed last a (omega (arith, v.bounded, v.small)) inside (rw e v.order)) λ c w.
        returns (record {
          ran = refl;
          removed = w;
          size = refl;
          valid = record {
            order = w.heap;
            block = w.block ∙ v.block;
            bounded = omega (arith, v.bounded);
            nonzero = v.nonzero;
            small = v.small;
          };
        }))

-- An empty queue is left as it is.
pub sched_run_one-empty : (s : Scheduler) → s.size ≡ 0 → sched_run_one s ≡ ok (none, s)
unfolding sched_run_one
sched_run_one-empty s e = let none_left : (s.size == 0) ≡ true = ground arith in rw none_left

-- What the loop leaves: the queued tasks have run, each once and in order, and none is queued.
record Emptied (s : Scheduler) (r : List Finished × Scheduler) : Type 0 where
  order : List Task
  ran : r.0 ≡ map run_task order
  drained : Drained s.size s.heap order 0 r.1.heap
  none_left : r.1.size ≡ 0
  valid : IsValid r.1

Emptied-cons :
    (s : Scheduler) (f : Option Finished) (s' : Scheduler) (later : List Finished) (s'' : Scheduler)
    → IsValid s
    → 0 < s.size
    → RanOne s (f, s')
    → Emptied s' (later, s'')
    → Emptied s (elim f [ none ↦ later | some g ↦ g ∷ later ], s'')
Emptied-cons s f s' later s'' v some_left one all =
    let last = s.size - 1 in
    let e : suc last ≡ s.size = omega arith in
    let inside : last < length s.heap = omega (arith, v.block, v.bounded) in
    record {
      order = at s.heap 0 ∷ all.order;
      ran = rw (one.ran, all.ran);
      drained = rw e at (
          Drained-cons last 0 s.heap s''.heap s'.heap all.order inside (rw e v.order) one.removed
            (rw one.size at all.drained));
      none_left = all.none_left;
      valid = all.valid;
    }

run_all_loop-Emptied :
    (fuel : ℕ) (s : Scheduler)
    → s.size < fuel
    → IsValid s
    → Returns (Emptied s) (run_all_loop fuel s)
unfolding run_all_loop
run_all_loop-Emptied zero s f v = absurd (omega arith)
run_all_loop-Emptied (suc fuel) s f v =
    branch (ltb 0 s.size)
      (λ more.
        let some_left : 0 < s.size = ground arith in
        bind (sched_run_one_runs s v some_left) λ r one.
          bind (run_all_loop-Emptied fuel r.1 (omega (arith, one.size)) one.valid)
            λ t all. returns (Emptied-cons s r.0 r.1 t.0 t.1 v some_left one all))
      (λ no_more.
        let empty : s.size ≡ 0 = ground arith in
        returns (record {
          order = [];
          ran = refl;
          drained = rw empty (Drained-none 0 s.heap (λ c p q r. absurd (omega arith)));
          none_left = empty;
          valid = v;
        }))

-- A task may run before another: it has the lower number, or the same one and was not submitted later.
abbrev pub Precedes : Task → Task → Type 0
Precedes t u = (t.priority < u.priority) ⊎ ((t.priority ≡ u.priority) × (t.seq ≤ u.seq))

less-Precedes : (t u : Task) → sched_less u t ≡ false → Precedes t u
unfolding sched_less
less-Precedes t u h = ground (arith, h)

-- What running a task makes of it: the result is what `execute` returns, and 0 means done.
pub record RanAs (t : Task) (f : Finished) : Type 0 where
  pub result : f.result ≡ t.execute t.arg
  pub succeeded : f.result ≡ 0 → f.task ≡ record t { status = done }
  pub gave_up : (f.result == 0) ≡ false → f.task ≡ record t { status = failed }

run_task-RanAs : (t : Task) → RanAs t (run_task t)
unfolding run_task
run_task-RanAs t = record {
  result = refl;
  succeeded = λ e. let same : (t.execute t.arg == 0) ≡ true = ground (arith, e) in rw same refl;
  gave_up = λ e. rw e refl;
}

-- The tasks ran one after another.
unfoldable pub InTurn : List Task → List Finished → Type 0
InTurn [] [] = Unit {0}
InTurn [] (f ∷ fs) = ⊥
InTurn (t ∷ ts) [] = ⊥
InTurn (t ∷ ts) (f ∷ fs) = RanAs t f × InTurn ts fs

run_task-InTurn : (ts : List Task) → InTurn ts (map run_task ts)
unfolding InTurn
run_task-InTurn [] = tt
run_task-InTurn (t ∷ ts) = (run_task-RanAs t, run_task-InTurn ts)

-- What running all leaves: exactly the queued tasks have run, in `order`, and none is queued.
pub record RanAll (s : Scheduler) (r : List Finished × Scheduler) : Type 0 where
  pub order : List Task
  pub sorted : Pairwise Precedes order
  pub all : Perm order (queued s)
  pub ran : InTurn order r.0
  pub none_left : r.1.size ≡ 0
  pub valid : IsValid r.1

-- `sched_run_all` runs every queued task once, by priority and among equal priorities in the order
-- of submission, and leaves an empty scheduler. A task is done where `execute` returns 0, and has
-- failed otherwise.
pub sched_run_all_drains : (s : Scheduler) → IsValid s → Returns (RanAll s) (sched_run_all s)
unfolding sched_run_all
sched_run_all_drains s v = weaken (run_all_loop-Emptied (s.size + 1) s (omega arith) v) λ r e.
    record {
      order = e.order;
      sorted = Pairwise.imp (λ t u h. less-Precedes t u h) e.drained.sorted;
      all = rw (append-nil e.order) at e.drained.cells;
      ran = rw e.ran (run_task-InTurn e.order);
      none_left = e.none_left;
      valid = e.valid;
    }
