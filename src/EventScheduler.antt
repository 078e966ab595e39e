-- ===== src/EventScheduler.antt =====
-- event_scheduler.c: events in a min-heap of fixed size, run when their time has come.
pub mod Add
pub mod Tick
use textbook_c_ds_deep.Prelude.{
  ℕ, zero, suc, ◌+◌, ◌-◌, ◌≤◌, ◌≡◌, Option, none, List, [], ◌∷◌, ltb, leb, ◌==◌, if◌then◌else◌,
  length, take, strncpy, ◌^◌, arith,
}
use textbook_c_ds_deep.Run.{Run, ok, out_of_fuel, ◌>>=◌}
use textbook_c_ds_deep.Array.{load, store}
use textbook_c_ds_deep.Heap.{Order, order_by, sift_up, sift_down}
use textbook_c_ds_deep.Heap.Invariant.{IsHeap}

-- MAX_EVENTS
abbrev pub max_events : ℕ
max_events = 256

-- A time is its `time_t` value plus 2 ^ 63. `name` is all 64 bytes of the field. A handler and its
-- argument are the addresses that the program passed; `none` is NULL.
pub record Event : Type 0 where
  pub trigger_at : ℕ
  pub name : List ℕ
  pub handler : Option ℕ
  pub arg : ℕ

abbrev pub blank_event : Event
blank_event = record { trigger_at = 0; name = []; handler = none; arg = 0 }

instance abbrev pub by_trigger : Order Event
by_trigger = order_by (λ (e : Event). e.trigger_at) blank_event (2 ^ 31) (omega arith)

-- The file's own `sift_up` and `sift_down`.
abbrev pub event_sift_up : List Event → ℕ → Run (List Event)
event_sift_up = sift_up

abbrev pub event_sift_down : ℕ → List Event → ℕ → Run (List Event)
event_sift_down = sift_down

pub record EventHeap : Type 0 where
  pub data_ : List Event
  pub size : ℕ

unfoldable pub scheduler_add : EventHeap → ℕ → List ℕ → Option ℕ → ℕ → Run EventHeap
scheduler_add h trigger_at name handler arg = if leb max_events h.size then ok h else (do
  old ← load h.data_ h.size
  let e : Event = record {
    trigger_at = trigger_at;
    name = strncpy old.name name 63;
    handler = handler;
    arg = arg;
  }
  a ← store h.data_ h.size e
  b ← event_sift_up a h.size
  ok (record { data_ = b; size = h.size + 1 }))

-- The body of the loop of `scheduler_tick`, up to the call of the handler: the earliest event, and
-- the heap without it.
pub take_earliest : EventHeap → Run (Event × EventHeap)
take_earliest h = do
  e ← load h.data_ 0
  last ← load h.data_ (h.size - 1)
  a ← store h.data_ 0 last
  b ← event_sift_down (h.size - 1) a 0
  ok (e, record { data_ = b; size = h.size - 1 })

-- The loop of `scheduler_tick`: the events that were run, in order, and the heap that is left. A
-- handler gets its argument alone and not the heap, so it does not change the heap.
tick_loop : ℕ → EventHeap → ℕ → Run (List Event × EventHeap)
tick_loop zero h now = out_of_fuel
tick_loop (suc fuel) h now =
    let run_one : Run (List Event × EventHeap) = do
      (e, h') ← take_earliest h
      (later, h'') ← tick_loop fuel h' now
      ok (e ∷ later, h'')
    in let test : Run (List Event × EventHeap) = do
      root ← load h.data_ 0
      if leb root.trigger_at now then run_one else ok ([], h)
      in if ltb 0 h.size then test else ok ([], h)

-- Each round takes an event out, so `size + 1` rounds are enough.
unfoldable pub scheduler_tick : EventHeap → ℕ → Run (List Event × EventHeap)
unfolding tick_loop take_earliest
scheduler_tick h now = tick_loop (h.size + 1) h now

pub record IsValid (h : EventHeap) : Type 0 where
  pub heap : IsHeap h.size h.data_
  pub block : length h.data_ ≡ max_events
  pub bounded : h.size ≤ max_events

-- The events that wait.
abbrev pub pending : EventHeap → List Event
pending h = take h.size h.data_
