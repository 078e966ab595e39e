-- ===== src/Deque/Whole.antt =====
-- The deque at its start and its end.
use textbook_c_ds_deep.Prelude.{
  ℕ, suc, ◌^◌, ◌<◌, ◌≡◌, refl, sym, ap, ◌∙◌, true, false, List, [], ◌∷◌, arith, ◌==◌, length,
}
use textbook_c_ds_deep.Run.{Returns, returns, bind}
use textbook_c_ds_deep.Links.{alive}
use textbook_c_ds_deep.Links.Route.{AllApart, stop, step}
use textbook_c_ds_deep.Links.Insert.{set_next-WroteNext, set_prev-WrotePrev}
use textbook_c_ds_deep.Deque.{Deque, deque_init, deque_empty, deque_destroy}
use textbook_c_ds_deep.Deque.Ends.{Holds, length-values}
use textbook_c_ds_deep.Deque.Pop.{deque_pop-Holds}

-- `deque_init` of a sentinel in memory, with nothing at NULL, gives an empty deque.
pub deque_init-Holds :
    (dq : Deque)
    → alive dq.links dq.sentinel ≡ true
    → alive dq.links 0 ≡ false
    → Returns (λ e. Holds e []) (deque_init dq)
unfolding deque_init AllApart
deque_init-Holds dq lives null =
    let s = dq.sentinel in
    bind (set_prev-WrotePrev dq.links s s lives) λ a ra.
      bind (set_next-WroteNext a s s (ra.lives s ∙ lives)) λ b rb.
        let ready = rb.lives s ∙ ra.lives s ∙ lives in
        returns (
          [],
          record {
            list = record {
              ring =
                  step
                    (record {
                      from = ready;
                      to = ready;
                      forth = ground (arith, rb.ahead s);
                      back = ground (arith, rb.behind s, ra.behind s);
                    })
                    stop;
              apart = (refl, tt);
            };
            size = refl;
            null = rb.lives 0 ∙ ra.lives 0 ∙ null;
          },
          refl,
        )

-- `deque_destroy` ends, after one round more than there are data, and leaves an empty deque.
pub deque_destroy-Holds :
    (dq : Deque) (vs : List ℕ)
    → Holds dq vs
    → length vs < 2 ^ 64
    → Returns (λ e. Holds e []) (deque_destroy (suc (length vs)) dq)
unfolding deque_destroy deque_empty
deque_destroy-Holds dq [] (xs, h, e) small =
    let none_left : dq.size ≡ 0 = h.size ∙ sym (length-values dq.data_ xs) ∙ ap length e in
    let empty : (dq.size == 0) ≡ true = ground arith in rw empty (returns (xs, h, e))
deque_destroy-Holds dq (v ∷ vs) (xs, h, e) small =
    let some_left : dq.size ≡ suc (length vs) =
      h.size ∙ sym (length-values dq.data_ xs) ∙ ap length e in
    let full : (dq.size == 0) ≡ false = ground arith in
    rw full (
      bind (deque_pop-Holds dq (v ∷ vs) (xs, h, e) small).0
        λ out t. deque_destroy-Holds out.1 vs t.1 (omega arith))
