-- ===== src/SinglyLinked/Cycle.antt =====
-- The tortoise and the hare on a list that ends.
use mathlib.Core.List.{append_assoc}
use textbook_c_ds_deep.Prelude.{
  ℕ, zero, suc, ◌<◌, ◌≡◌, refl, true, false, List, [], ◌∷◌, ◌++◌, arith, ◌==◌, length,
}
use textbook_c_ds_deep.Run.{ok}
use textbook_c_ds_deep.Links.Route.{has-append}
use textbook_c_ds_deep.SinglyLinked.{
  Nodes, SinglyLinkedList, is_node, node_next, cycle_loop, sll_has_cycle,
}
use textbook_c_ds_deep.SinglyLinked.Segment.{Segment, end_, link, HasNodes, not_null, read_next-ok}

-- The tortoise after a step, with nodes between it and the hare's next place.
record Stepped (g : Nodes) (slow : ℕ) (ahead : List ℕ) : Type 0 where
  to : ℕ
  first : ℕ
  between : List ℕ
  alive : is_node g slow ≡ true
  next : node_next g slow ≡ to
  rest : Segment g to (first ∷ (between ++ ahead))

tortoise-Stepped :
    {g : Nodes} {slow : ℕ} (between : List ℕ) (x y : ℕ) (ahead : List ℕ)
    → Segment g slow (between ++ x ∷ y ∷ ahead)
    → Stepped g slow ahead
tortoise-Stepped [] x y ahead (link alive next out s) = record {
  to = _;
  first = y;
  between = [];
  alive = alive;
  next = next;
  rest = s;
}
tortoise-Stepped (b ∷ []) x y ahead (link alive next out s) = record {
  to = _;
  first = x;
  between = y ∷ [];
  alive = alive;
  next = next;
  rest = s;
}
tortoise-Stepped (b ∷ c ∷ between) x y ahead (link alive next out s) = record {
  to = _;
  first = c;
  between = between ++ x ∷ y ∷ [];
  alive = alive;
  next = next;
  rest = rw (append_assoc between (x ∷ y ∷ []) ahead) s;
}

-- They do not meet.
apart_places :
    {g : Nodes} {slow fast : ℕ} (b : ℕ) (between : List ℕ) {ahead : List ℕ}
    → is_node g 0 ≡ false
    → Segment g slow (b ∷ (between ++ ahead))
    → Segment g fast ahead
    → (slow == fast) ≡ false
apart_places {g} b between null (link alive next out s) end_ = not_null g b null alive
apart_places b between null (link alive next out s) (link {p} {xs = xs} alive' next' out' f) =
    ground (arith, out, has-append b between (p ∷ xs))

-- The hare is `between` nodes ahead of the tortoise.
cycle_loop-none :
    (fuel : ℕ) (g : Nodes) {slow fast : ℕ} (between ahead : List ℕ)
    → is_node g 0 ≡ false
    → Segment g slow (between ++ ahead)
    → Segment g fast ahead
    → length ahead < fuel
    → cycle_loop fuel g slow fast ≡ ok false
unfolding cycle_loop
cycle_loop-none zero g between ahead null s f enough = absurd (omega arith)
cycle_loop-none (suc fuel) g between [] null s end_ enough = refl
cycle_loop-none (suc fuel) g between (x ∷ []) null s (link alive next out end_) enough =
    rw (not_null g x null alive, read_next-ok g x 0 alive next) refl
cycle_loop-none (suc fuel) g {slow} between (x ∷ y ∷ ahead) null s
      (link {q = q} alive next out (link {q = r} alive' next' out' f)) enough =
    let t = tortoise-Stepped between x y ahead s in
    rw
      (
        not_null g x null alive,
        read_next-ok g x q alive next,
        not_null g q null alive',
        read_next-ok g slow t.to t.alive t.next,
        read_next-ok g q r alive' next',
        apart_places t.first t.between null t.rest f,
      )
      (cycle_loop-none fuel g (t.first ∷ t.between) ahead null t.rest f (omega arith))

-- `sll_has_cycle` of a list that ends returns false, after at most as many rounds as it has nodes, and
-- one more.
pub sll_has_cycle-none :
    (list : SinglyLinkedList) (xs : List ℕ)
    → HasNodes list xs
    → sll_has_cycle (suc (length xs)) list ≡ ok false
unfolding sll_has_cycle
sll_has_cycle-none list xs h =
    cycle_loop-none (suc (length xs)) list.nodes [] xs h.null h.chain h.chain (omega arith)
