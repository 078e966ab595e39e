-- ===== src/EventScheduler/Add.antt =====
-- `scheduler_add`.
use native.Mathlib.Numerals.{add-one}
use textbook_c_ds_deep.Prelude.{
  ℕ, ◌≤◌, ◌<◌, ◌≡◌, refl, ◌∙◌, Option, List, ◌∷◌, Perm, arith, leb, true, false, length, strncpy,
}
use textbook_c_ds_deep.Run.{ok, Returns, returns, bind}
use textbook_c_ds_deep.Array.{at, load-ok, store-ok}
use textbook_c_ds_deep.Heap.{order_default}
use textbook_c_ds_deep.Heap.Ends.{push-Inserted}
use textbook_c_ds_deep.EventScheduler.{
  max_events, Event, by_trigger, EventHeap, scheduler_add, IsValid, pending,
}

module _ (h : EventHeap) (trigger_at : ℕ) (name : List ℕ) (handler : Option ℕ) (arg : ℕ) where
  -- The event that is registered: the first 63 bytes of the name, in the slot of an older one.
  abbrev pub registered : Event
  registered = record {
    trigger_at = trigger_at;
    name = strncpy (at h.data_ h.size).name name 63;
    handler = handler;
    arg = arg;
  }

  -- With fewer than MAX_EVENTS events waiting, exactly the event given is registered.
  pub scheduler_add_registers :
      IsValid h
      → h.size < max_events
      → Returns
          (λ h'. IsValid h' × Perm (pending h') (registered ∷ pending h))
          (scheduler_add h trigger_at name handler arg)
  unfolding scheduler_add
  scheduler_add_registers v room =
      let few : leb max_events h.size ≡ false = ground arith in
      let inside : h.size < length h.data_ = omega (arith, v.block) in
      rw (few, load-ok h.data_ h.size inside, store-ok h.data_ h.size registered inside)
        (bind (push-Inserted h.size h.data_ h.data_ registered refl inside v.heap) λ c s. returns (
          record { heap = rw add-one s.heap; block = s.block ∙ v.block; bounded = omega arith },
          rw add-one s.cells,
        ))

  -- With MAX_EVENTS events waiting the new one is dropped, without a sign to the caller.
  pub scheduler_add-full : max_events ≤ h.size → scheduler_add h trigger_at name handler arg ≡ ok h
  unfolding scheduler_add
  scheduler_add-full full = let e : leb max_events h.size ≡ true = ground arith in rw e
