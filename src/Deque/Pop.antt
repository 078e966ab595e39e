-- ===== src/Deque/Pop.antt =====
-- What a pop takes.
use mathlib.Core.List.{append_assoc, append-nil}
use textbook_c_ds_deep.Prelude.{
  ℕ, ◌^◌, ◌<◌, ◌≡◌, refl, sym, ap, ◌∙◌, true, false, ◌||◌, List, [], ◌∷◌, ◌++◌, arith, ◌==◌,
  Bool-cases, inl, inr, length, length-append,
}
use textbook_c_ds_deep.Run.{ok, Returns, returns, bind, weaken}
use textbook_c_ds_deep.Links.{Links, alive, next_of, prev_of}
use textbook_c_ds_deep.Links.Route
use textbook_c_ds_deep.Links.Route.{
  has, AllApart, Linked, Route, stop, step, has-append, apart_front, apart_back, apart-remove,
}
use textbook_c_ds_deep.Links.Insert.{get_next-ok, get_prev-ok}
use textbook_c_ds_deep.Links.Delete.{bypass-Bypassed, Bypassed-Route, Around, around, IsList-Around}
use textbook_c_ds_deep.Deque.{Deque, free_node, deque_pop_node, deque_pop_front, deque_pop_back}
use textbook_c_ds_deep.Deque.Nodes.{differs}
use textbook_c_ds_deep.Deque.Ends.{values, HasNodes, Holds, length-values}

module _ (g : Links) (n c : ℕ) (other : (c == n) ≡ false) where
  alive-free_node : alive (free_node g n) c ≡ alive g c
  unfolding free_node
  alive-free_node = rw (alive, other) refl

  next-free_node : next_of (free_node g n) c ≡ next_of g c
  unfolding free_node
  next-free_node = rw (next_of, other) refl

  prev-free_node : prev_of (free_node g n) c ≡ prev_of g c
  unfolding free_node
  prev-free_node = rw (prev_of, other) refl

-- What a pop of the node `n` between the nodes `xs` and `ys` leaves.
record Taken (dq : Deque) (n : ℕ) (xs ys : List ℕ) (out : ℕ × Deque) : Type 0 where
  datum : out.0 ≡ dq.data_ n
  nodes : HasNodes out.1 (xs ++ ys)
  same : out.1.data_ ≡ dq.data_

cut-Taken :
    (dq : Deque) (n : ℕ) (xs ys : List ℕ) {total : List ℕ}
    → HasNodes dq (xs ++ n ∷ ys)
    → total ≡ ys ++ dq.sentinel ∷ []
    → AllApart (xs ++ n ∷ total)
    → Around dq.links dq.sentinel n xs total
    → has dq.sentinel (xs ++ total) ≡ true
    → length (xs ++ n ∷ ys) < 2 ^ 64
    → Returns (Taken dq n xs ys) (deque_pop_node dq n)
unfolding deque_pop_node
cut-Taken dq n xs ys h e apart (around {p} {q} {rest} front l m back) root small =
    let n_front = apart_front xs (q ∷ rest) n apart in
    let n_back = apart_back xs (q ∷ rest) n apart in
    let ending = Route.end_mem front in
    let all = λ (c : ℕ). has-append c xs (q ∷ rest) in
    let outside : has n (xs ++ q ∷ rest) ≡ false = ground (arith, all n, n_front, n_back) in
    let real : (n == 0) ≡ false = elim (Bool-cases (n == 0)) [
      | inl null ↦
          let z : n ≡ 0 = ground arith in
          let bad : false ≡ true = sym h.null ∙ rw z at l.to in absurd cc
      | inr other ↦ other
    ] in
    let member : (n == dq.sentinel) ≡ false =
      ground (arith, differs n (xs ++ q ∷ rest) dq.sentinel root outside) in
    rw (real, member)
      (bind (bypass-Bypassed dq.links n p q l m (grind (arith, ending, all dq.sentinel, all p)))
        λ a r.
          let apart_of =
            λ (c : ℕ) (i : has c (xs ++ q ∷ rest) ≡ true). differs n (xs ++ q ∷ rest) c i outside in
          let ring =
            Bypassed-Route {h = free_node a n} front l m back apart root
              (λ c k i. alive-free_node a n c (apart_of c i) ∙ r.lives c ∙ k)
              (λ c i. next-free_node a n c (apart_of c i) ∙ r.ahead c)
              (λ c i. prev-free_node a n c (apart_of c i) ∙ r.behind c) in
          let same : xs ++ q ∷ rest ≡ xs ++ ys ++ dq.sentinel ∷ [] =
            ap (λ t. xs ++ t) e ∙ sym (append_assoc xs ys (dq.sentinel ∷ [])) in
          returns (record {
            datum = refl;
            nodes = record {
              list = record {
                ring = rw same at ring;
                apart = rw same at (apart-remove xs (q ∷ rest) n apart);
              };
              size = omega (arith, h.size, length-append xs (n ∷ ys), length-append xs ys, small);
              null = alive-free_node a n 0 (ground (arith, real)) ∙ r.lives 0 ∙ h.null;
            };
            same = refl;
          }))

module _ (dq : Deque) (n : ℕ) where
  pop_node-Taken :
      (xs ys : List ℕ)
      → HasNodes dq (xs ++ n ∷ ys)
      → length (xs ++ n ∷ ys) < 2 ^ 64
      → Returns (Taken dq n xs ys) (deque_pop_node dq n)
  pop_node-Taken xs ys h small =
      let (cut, apart) = IsList-Around xs ys h.list in
      cut-Taken dq n xs ys h refl apart cut
        (ground (
          arith,
          has-append dq.sentinel xs (ys ++ dq.sentinel ∷ []),
          has-append dq.sentinel ys (dq.sentinel ∷ []),
        ))
        small

  pop_front-Taken :
      (xs : List ℕ)
      → HasNodes dq (n ∷ xs)
      → length (n ∷ xs) < 2 ^ 64
      → Returns (Taken dq n [] xs) (deque_pop_front dq)
  unfolding deque_pop_front
  pop_front-Taken xs h small = by_ring h.list.ring
    where
      by_ring :
          Route dq.links dq.sentinel (n ∷ (xs ++ dq.sentinel ∷ [])) dq.sentinel
          → Returns (Taken dq n [] xs) (deque_pop_front dq)
      by_ring (step l p) =
          rw (get_next-ok dq.links dq.sentinel n l.from l.forth) (pop_node-Taken [] xs h small)

  pop_back-Taken :
      (xs : List ℕ)
      → HasNodes dq (xs ++ n ∷ [])
      → length (xs ++ n ∷ []) < 2 ^ 64
      → Returns (Taken dq n xs []) (deque_pop_back dq)
  unfolding deque_pop_back
  pop_back-Taken xs h small =
      let (p, front, l, e) = Route.last_step (xs ++ n ∷ []) dq.sentinel h.list.ring in
      let (q, before, m, f) = Route.last_step xs n front in
      rw (get_prev-ok dq.links dq.sentinel n l.to (l.back ∙ sym f)) (pop_node-Taken xs [] h small)

-- A deque without nodes has none to give.
pop_none :
    (dq : Deque)
    → HasNodes dq []
    → (deque_pop_front dq ≡ ok (0, dq)) × (deque_pop_back dq ≡ ok (0, dq))
unfolding deque_pop_front deque_pop_back deque_pop_node
pop_none dq h = by_ring h.list.ring
  where
    by_ring :
        Route dq.links dq.sentinel (dq.sentinel ∷ []) dq.sentinel
        → (deque_pop_front dq ≡ ok (0, dq)) × (deque_pop_back dq ≡ ok (0, dq))
    by_ring (step l rest) =
        let same : ((dq.sentinel == 0) || (dq.sentinel == dq.sentinel)) ≡ true = ground arith in
        (
          rw (get_next-ok dq.links dq.sentinel dq.sentinel l.from l.forth, same) refl,
          rw (get_prev-ok dq.links dq.sentinel dq.sentinel l.to l.back, same) refl,
        )

-- The ends of a list of data, NULL where there are none.
abbrev pub first_of : List ℕ → ℕ
first_of [] = 0
first_of (v ∷ vs) = v

abbrev pub rest_of : List ℕ → List ℕ
rest_of [] = []
rest_of (v ∷ vs) = vs

abbrev pub last_of : List ℕ → ℕ
last_of [] = 0
last_of (v ∷ []) = v
last_of (v ∷ w ∷ vs) = last_of (w ∷ vs)

abbrev pub before_last : List ℕ → List ℕ
before_last [] = []
before_last (v ∷ []) = []
before_last (v ∷ w ∷ vs) = v ∷ before_last (w ∷ vs)

-- The node of the last datum.
values_last :
    (f : ℕ → ℕ) (x : ℕ) (xs : List ℕ)
    → (ys : List ℕ) × (y : ℕ) × (x ∷ xs ≡ ys ++ y ∷ [])
      × (values f ys ≡ before_last (values f (x ∷ xs)))
      × (f y ≡ last_of (values f (x ∷ xs)))
values_last f x [] = ([], x, refl, refl, refl)
values_last f x (z ∷ xs) =
    let (ys, y, same, front, last) = values_last f z xs in
    (x ∷ ys, y, ap (λ t. x ∷ t) same, ap (λ t. f x ∷ t) front, last)

pop_node_front :
    (dq : Deque) (xs : List ℕ)
    → HasNodes dq xs
    → length xs < 2 ^ 64
    → Returns
        (λ out.
          (out.0 ≡ first_of (values dq.data_ xs)) × Holds out.1 (rest_of (values dq.data_ xs)))
        (deque_pop_front dq)
pop_node_front dq [] h small = rw (pop_none dq h).0 (returns (refl, ([], h, refl)))
pop_node_front dq (x ∷ xs) h small =
    weaken (pop_front-Taken dq x xs h small)
      λ out t. (t.datum, (xs, t.nodes, ap (λ (f : ℕ → ℕ). values f xs) t.same))

pop_node_back :
    (dq : Deque) (xs : List ℕ)
    → HasNodes dq xs
    → length xs < 2 ^ 64
    → Returns
        (λ out.
          (out.0 ≡ last_of (values dq.data_ xs)) × Holds out.1 (before_last (values dq.data_ xs)))
        (deque_pop_back dq)
pop_node_back dq [] h small = rw (pop_none dq h).1 (returns (refl, ([], h, refl)))
pop_node_back dq (x ∷ xs) h small =
    let (ys, y, same, front, last) = values_last dq.data_ x xs in
    weaken
      (pop_back-Taken dq y ys (rw same at h)
        (let size = ap length same in omega (arith, size, small)))
      λ out t. (
        t.datum ∙ last,
        (ys, rw (append-nil ys) at t.nodes, ap (λ (f : ℕ → ℕ). values f ys) t.same ∙ front),
      )

-- `deque_pop_front` takes the first datum of a deque and `deque_pop_back` the last; the others stay in
-- their order. Of an empty deque both give NULL and leave it empty.
pub deque_pop-Holds :
    (dq : Deque) (vs : List ℕ)
    → Holds dq vs
    → length vs < 2 ^ 64
    → Returns (λ out. (out.0 ≡ first_of vs) × Holds out.1 (rest_of vs)) (deque_pop_front dq)
      × Returns (λ out. (out.0 ≡ last_of vs) × Holds out.1 (before_last vs)) (deque_pop_back dq)
deque_pop-Holds dq vs (xs, h, e) small =
    let few : length xs < 2 ^ 64 = rw (sym (length-values dq.data_ xs), e) small in
    (rw e at (pop_node_front dq xs h few), rw e at (pop_node_back dq xs h few))
