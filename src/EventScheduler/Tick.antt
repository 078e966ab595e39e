-- ===== src/EventScheduler/Tick.antt =====
-- `scheduler_tick`.
use native.Mathlib.Bridge.{le_prop}
use mathlib.Core.List.{Mem, forall_mem-cons, not-mem-nil}
use textbook_c_ds_deep.Prelude.{
  ℕ, zero, suc, ◌+◌, ◌-◌, ◌≤◌, ◌<◌, ◌≡◌, refl, ◌∙◌, List, [], ◌∷◌, arith, ltb, leb, length,
}
use textbook_c_ds_deep.Run.{Returns, returns, bind, weaken, branch}
use textbook_c_ds_deep.Array.{at, load-ok, store-ok}
use textbook_c_ds_deep.Heap.{order_default}
use textbook_c_ds_deep.Heap.Ends.{Removed, pop-Removed, root_first_mem}
use textbook_c_ds_deep.Heap.Drain.{Drained, Drained-none, Drained-cons}
use textbook_c_ds_deep.EventScheduler.{
  Event, by_trigger, EventHeap, take_earliest, tick_loop, scheduler_tick, IsValid, pending,
}

-- What a tick does: the events that are due run in the order of their times, each once, and the
-- others wait.
pub record Ticked (h : EventHeap) (now : ℕ) (r : List Event × EventHeap) : Type 0 where
  pub drained : Drained h.size h.data_ r.0 r.1.size r.1.data_
  pub due : (e : Event) → Mem e r.0 → e.trigger_at ≤ now
  pub waiting : (e : Event) → Mem e (pending r.1) → now < e.trigger_at

-- What one round of the loop leaves.
record IsTaken (h : EventHeap) (r : Event × EventHeap) : Type 0 where
  earliest : r.0 ≡ at h.data_ 0
  size : r.1.size ≡ h.size - 1
  removed : Removed (h.size - 1) h.data_ r.1.data_

module _ (h : EventHeap) (v : IsValid h) (some_left : 0 < h.size) where
  take_earliest-IsTaken : Returns (IsTaken h) (take_earliest h)
  unfolding take_earliest
  take_earliest-IsTaken =
      let last = h.size - 1 in
      let e : suc last ≡ h.size = omega arith in
      let inside : last < length h.data_ = omega (arith, v.block, v.bounded) in
      let a = h.data_ in
      rw (load-ok a 0 (omega arith), load-ok a last inside, store-ok a 0 (at a last) (omega arith))
        (bind (pop-Removed last a (omega (arith, v.bounded)) inside (rw e v.heap))
          λ c s. returns (record { earliest = refl; size = refl; removed = s }))

  IsTaken-IsValid : (r : Event × EventHeap) → IsTaken h r → IsValid r.1
  IsTaken-IsValid r t = record {
    heap = rw t.size t.removed.heap;
    block = t.removed.block ∙ v.block;
    bounded = omega (arith, t.size, v.bounded);
  }

  -- An event that is due, before the events that the later rounds run.
  Ticked-cons :
      (now : ℕ) (r : Event × EventHeap) (s : List Event × EventHeap)
      → (at h.data_ 0).trigger_at ≤ now
      → IsTaken h r
      → Ticked r.1 now s
      → Ticked h now (r.0 ∷ s.0, s.1)
  Ticked-cons now r s due t w =
      let last = h.size - 1 in
      let e : suc last ≡ h.size = omega arith in
      let inside : last < length h.data_ = omega (arith, v.block, v.bounded) in
      record {
        drained = rw t.earliest (
            rw e at (
              Drained-cons last s.1.size h.data_ s.1.data_ r.1.data_ s.0 inside (rw e v.heap)
                t.removed (rw t.size at w.drained)));
        due = (forall_mem-cons λ x. le_prop).1 (rw t.earliest due, w.due);
        waiting = w.waiting;
      }

Ticked-stop :
    (h : EventHeap) (now : ℕ)
    → IsValid h
    → ((e : Event) → Mem e (pending h) → now < e.trigger_at)
    → Ticked h now ([], h)
Ticked-stop h now v late = record {
  drained = Drained-none h.size h.data_ v.heap;
  due = λ e m. absurd (not-mem-nil m);
  waiting = late;
}

tick_loop-Ticked :
    (fuel : ℕ) (h : EventHeap) (now : ℕ)
    → h.size < fuel
    → IsValid h
    → Returns (Ticked h now) (tick_loop fuel h now)
unfolding tick_loop
tick_loop-Ticked zero h now f v = absurd (omega arith)
tick_loop-Ticked (suc fuel) h now f v =
    branch (ltb 0 h.size)
      (λ more.
        let some_left : 0 < h.size = ground arith in
        rw (load-ok h.data_ 0 (omega (arith, v.block, v.bounded))) (
          branch (leb (at h.data_ 0).trigger_at now)
            (λ due. bind (take_earliest-IsTaken h v some_left) λ r t.
              bind
                (tick_loop-Ticked fuel r.1 now (omega (arith, t.size))
                  (IsTaken-IsValid h v some_left r t))
                λ s w. returns (Ticked-cons h v some_left now r s (ground arith) t w))
            (λ early. returns (
              Ticked-stop h now v λ e m. ground (
                arith,
                root_first_mem h.size h.data_ (omega (arith, v.block, v.bounded)) v.heap e m,
              )))))
      (λ none_left.
        let empty : h.size ≡ 0 = ground arith in
        returns (Ticked-stop h now v λ e m. absurd (not-mem-nil (rw empty at m))))

-- A tick of a valid heap runs exactly the events that are due, ordered by time, and keeps the rest
-- in a valid heap.
pub scheduler_tick_runs :
    (h : EventHeap) (now : ℕ)
    → IsValid h
    → Returns (λ r. Ticked h now r × IsValid r.1) (scheduler_tick h now)
unfolding scheduler_tick
scheduler_tick_runs h now v = weaken (tick_loop-Ticked (h.size + 1) h now (omega arith) v) λ r t. (
  t,
  record {
    heap = t.drained.heap;
    block = t.drained.block ∙ v.block;
    bounded = omega (arith, t.drained.fewer, v.bounded);
  },
)
