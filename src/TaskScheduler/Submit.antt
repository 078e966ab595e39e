-- ===== src/TaskScheduler/Submit.antt =====
-- `sched_submit`.
use native.Mathlib.Numerals.{add-one}
use textbook_c_ds_deep.Prelude.{
  ℕ, ◌*◌, ◌%◌, ◌^◌, ◌≤◌, ◌<◌, ◌≡◌, ◌⊎◌, inl, inr, refl, ◌∙◌, Bool, true, false, Option, none, some,
  List, ◌∷◌, Perm, leb, arith, length, take, inc64,
}
use textbook_c_ds_deep.Run.{fault, Returns, returns, bind}
use textbook_c_ds_deep.Memory.{Memory}
use textbook_c_ds_deep.Array.{store-ok, store-fault}
use textbook_c_ds_deep.Heap.{order_default}
use textbook_c_ds_deep.Heap.Ends.{push-Inserted, IsHeap-take}
use textbook_c_ds_deep.TaskScheduler.{
  Task, pending, by_priority, Scheduler, enqueue, new_task, sched_submit, IsValid, queued,
}

-- What an accepted submission leaves: one task more, in a valid scheduler, and the next number.
pub record Submitted (s : Scheduler) (g_seq : ℕ) (t : Task) (r : Bool × Scheduler × ℕ)
    : Type 0 where
  pub accepted : r.0 ≡ true
  pub valid : IsValid r.1
  pub cells : Perm (queued r.1) (t ∷ queued s)
  pub next_seq : r.2 ≡ inc64 g_seq

-- What a refused submission leaves.
pub record Refused (s : Scheduler) (g_seq : ℕ) (r : Bool × Scheduler × ℕ) : Type 0 where
  pub refused : r.0 ≡ false
  pub valid : IsValid r.1
  pub cells : queued r.1 ≡ queued s
  pub same_seq : r.2 ≡ g_seq

stays : (s : Scheduler) (g_seq : ℕ) → IsValid s → Refused s g_seq (false, s, g_seq)
stays s g_seq v = record { refused = refl; valid = v; cells = refl; same_seq = refl }

enqueue-Submitted :
    (s g : Scheduler) (g_seq : ℕ) (t : Task)
    → IsValid s
    → g.size ≡ s.size
    → take s.size g.heap ≡ queued s
    → length g.heap ≡ g.capacity
    → g.size < g.capacity
    → g.capacity ≤ 2 ^ 60
    → Returns (Submitted s g_seq t) (enqueue g g_seq true t)
unfolding enqueue
enqueue-Submitted s g g_seq t v e same block free small =
    let inside : g.size < length g.heap = omega arith in
    rw (store-ok g.heap g.size t inside) (
      bind (push-Inserted g.size s.heap g.heap t (rw e same) inside (rw e v.order)) λ c w.
        returns (record {
          accepted = refl;
          valid = record {
            order = rw add-one w.heap;
            block = w.block ∙ block;
            bounded = omega arith;
            nonzero = omega arith;
            small = small;
          };
          cells = rw (add-one, ← e) w.cells;
          next_seq = refl;
        }))

module _ (memory : Memory Task) where
  -- There is a free cell, or `realloc` finds room for twice the cells, which are not too many.
  abbrev pub HasRoom : Scheduler → Type 0
  HasRoom s =
      (s.size < s.capacity)
      ⊎ ((s.size ≡ s.capacity)
          × (s.capacity ≤ 2 ^ 59)
          × (b : List Task) × (memory.realloc s.heap (s.capacity * 2) ≡ some b))

  -- The larger block is not found, or it is not needed or found, and `malloc` finds none for the task.
  abbrev pub NoMemory : Scheduler → Bool → Type 0
  NoMemory s found =
      ((s.size ≡ s.capacity) × (memory.realloc s.heap (s.capacity * 2) ≡ none))
      ⊎ ((found ≡ false) × HasRoom s)

  module _ (s : Scheduler) (g_seq priority : ℕ) (name : List ℕ) (execute : ℕ → ℕ) (arg : ℕ)
      (on_done : Option ℕ) where
    -- With room for it, exactly the task given is queued, not yet run, with `g_seq` as its number and the
    -- first 63 bytes of the name.
    pub sched_submit_queues :
        IsValid s
        → HasRoom s
        → Returns
            (Submitted s g_seq (record {
              priority = priority;
              seq = g_seq;
              name = take 63 name;
              status = pending;
              arg = arg;
              execute = execute;
              on_done = on_done;
            }))
            (sched_submit memory s g_seq true priority name execute arg on_done)
    unfolding sched_submit
    sched_submit_queues v (inl free) =
        let e : leb s.capacity s.size ≡ false = ground arith in
        rw e (enqueue-Submitted s s g_seq _ v refl refl v.block free v.small)
    sched_submit_queues v (inr (full, few, b, found)) =
        let e : leb s.capacity s.size ≡ true = ground arith in
        let wide = s.capacity * 2 % 2 ^ 64 in
        let n : wide ≡ s.capacity * 2 = omega arith in
        let found' : memory.realloc s.heap wide ≡ some b = rw n found in
        let now = v.nonzero in
        rw (e, found')
          (enqueue-Submitted s (record s { heap = b; capacity = wide }) g_seq _ v refl
            (memory.realloc_keeps s.heap wide b s.size found' (omega (arith, v.block))
              (omega arith))
            (memory.realloc_length s.heap wide b found') (omega arith) (omega arith))

    -- Without memory, for the larger block or for the task, a submission is refused: the same tasks are
    -- queued in a valid scheduler, and the next number stays.
    pub sched_submit-Refused :
        (found : Bool)
        → IsValid s
        → NoMemory s found
        → Returns
            (Refused s g_seq)
            (sched_submit memory s g_seq found priority name execute arg on_done)
    unfolding sched_submit enqueue
    sched_submit-Refused found v (inl (full, none_left)) =
        let e : leb s.capacity s.size ≡ true = ground arith in
        let n : s.capacity * 2 % 2 ^ 64 ≡ s.capacity * 2 = omega (arith, v.small) in
        rw (e, n, none_left) (returns (stays s g_seq v))
    sched_submit-Refused found v (inr (no_task, inl free)) =
        let e : leb s.capacity s.size ≡ false = ground arith in
        rw (e, no_task) (returns (stays s g_seq v))
    sched_submit-Refused found v (inr (no_task, inr (full, few, b, gives))) =
        let e : leb s.capacity s.size ≡ true = ground arith in
        let wide = s.capacity * 2 % 2 ^ 64 in
        let n : wide ≡ s.capacity * 2 = omega arith in
        let gives' : memory.realloc s.heap wide ≡ some b = rw n gives in
        let kept =
          memory.realloc_keeps s.heap wide b s.size gives' (omega (arith, v.block)) (omega arith) in
        rw (e, gives', no_task)
          (returns (record {
            refused = refl;
            valid = record {
              order = IsHeap-take s.size s.heap b kept v.order;
              block = memory.realloc_length s.heap wide b gives';
              bounded = omega (arith, full);
              nonzero = omega (arith, v.nonzero);
              small = omega (arith, few);
            };
            cells = kept;
            same_seq = refl;
          }))

    -- A scheduler of capacity 0 does not grow. Where `realloc` to 0 bytes returns a block, a first
    -- submission writes outside it.
    pub sched_submit-zero_capacity :
        (b : List Task)
        → s.size ≡ 0
        → s.capacity ≡ 0
        → memory.realloc s.heap 0 ≡ some b
        → sched_submit memory s g_seq true priority name execute arg on_done ≡ fault
    unfolding sched_submit enqueue
    sched_submit-zero_capacity b empty none_held found =
        let none_got = memory.realloc_length s.heap 0 b found in
        let e : leb s.capacity s.size ≡ true = ground arith in
        let n : s.capacity * 2 % 2 ^ 64 ≡ 0 = omega arith in
        let found' : memory.realloc s.heap (s.capacity * 2 % 2 ^ 64) ≡ some b = rw n found in
        rw (
          e,
          found',
          store-fault b s.size (new_task g_seq priority name execute arg on_done) (omega arith),
        )
