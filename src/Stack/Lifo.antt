-- ===== src/Stack/Lifo.antt =====
-- The array stack holds a list, the last pushed first.
use textbook_c_ds_deep.Prelude.{
  ◌+◌, ◌-◌, ◌*◌, ◌^◌, ◌<◌, ◌≡◌, refl, ◌∙◌, Bool, true, false, none, some, List, [], ◌∷◌, arith, leb,
  ltb, ◌==◌, take, length-set,
}
use textbook_c_ds_deep.Run.{ok, Returns, returns, branch}
use textbook_c_ds_deep.Memory.{ReallocSucceeds, Memory}
use textbook_c_ds_deep.Array.{Default, store-ok}
use textbook_c_ds_deep.Array.Stacked.{
  IsStacked, IsStacked-keep, IsStacked-push, IsStacked-pop, IsStacked-top,
}
use textbook_c_ds_deep.Stack.{ArrayStack, astack_push, astack_pop, astack_empty, put, IsValid}

module _ {ℓ} {A : Type ℓ} ⦃d : Default A⦄ where
  pub record Holds (s : ArrayStack A) (st : List A) : Type ℓ where
    pub valid : IsValid s
    pub stacked : IsStacked s.data_ s.count st

  pub astack_pop-none : (s : ArrayStack A) → Holds s [] → astack_pop s ≡ ok (none, s)
  unfolding astack_pop
  astack_pop-none s h =
      let empty : (s.count == 0) ≡ true = ground (arith, h.stacked.size) in rw empty refl

  module _ (s : ArrayStack A) (x : A) (st : List A) (h : Holds s (x ∷ st)) where
    pub not_empty : astack_empty s ≡ false
    not_empty = ground (arith, h.stacked.size)

    pub astack_pop-some : astack_pop s ≡ ok (some x, record s { count = s.count - 1 })
    unfolding astack_pop
    astack_pop-some =
        rw (not_empty, IsStacked-top h.stacked (omega (arith, h.valid.block, h.valid.bounded))) refl

    pub popped-Holds : Holds (record s { count = s.count - 1 }) st
    popped-Holds = record {
      valid = record {
        block = h.valid.block;
        bounded = omega (arith, h.valid.bounded);
        nonzero = h.valid.nonzero;
      };
      stacked = IsStacked-pop h.stacked;
    }

  -- What a push of `x` leaves.
  abbrev pub Pushed : ArrayStack A → List A → A → Bool × ArrayStack A → Type ℓ
  Pushed s st x (done, s') = Holds s' (x ∷ st) × (done ≡ true) × (s'.count ≡ s.count + 1)

  put-Pushed :
      (s : ArrayStack A) (st : List A) (x : A)
      → Holds s st
      → s.count < s.capacity
      → Returns (Pushed s st x) (put s x)
  unfolding put
  put-Pushed s st x h free =
      rw (put, store-ok s.data_ s.count x (omega (arith, free, h.valid.block)))
        (returns (
          record {
            valid = record {
              block = length-set s.data_ s.count x ∙ h.valid.block;
              bounded = omega (arith, free);
              nonzero = h.valid.nonzero;
            };
            stacked = IsStacked-push x h.stacked (omega (arith, free, h.valid.block));
          },
          refl,
          refl,
        ))

  module _ (memory : Memory A) where
    pub astack_push-Pushed :
        ReallocSucceeds memory
        → (s : ArrayStack A) (st : List A) (x : A) → Holds s st
        → s.count < 2 ^ 30
        → Returns (Pushed s st x) (astack_push memory s x)
    unfolding astack_push
    astack_push-Pushed gives s st x h few =
        branch (leb s.capacity s.count)
          (λ full.
            let twice = s.capacity * 2 in
            let fits : ltb twice (2 ^ 31) ≡ true = ground (arith, h.valid.bounded) in
            let (b, found) = gives s.data_ twice in
            let keeps : take s.count b ≡ take s.count s.data_ =
              memory.realloc_keeps s.data_ twice b s.count found
                (omega (arith, h.valid.block, h.valid.bounded)) (omega (arith, h.valid.bounded)) in
            let holds : Holds (record s { data_ = b; capacity = twice }) st = record {
              valid = record {
                block = memory.realloc_length s.data_ twice b found;
                bounded = omega (arith, h.valid.bounded);
                nonzero = omega (arith, h.valid.nonzero);
              };
              stacked = IsStacked-keep b h.stacked keeps;
            } in
            rw (fits, found)
              (put-Pushed (record s { data_ = b; capacity = twice }) st x holds
                (ground (arith, h.valid.bounded, h.valid.nonzero))))
          (λ open_. put-Pushed s st x h (ground arith))
