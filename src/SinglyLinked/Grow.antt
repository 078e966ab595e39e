-- ===== src/SinglyLinked/Grow.antt =====
-- Insertion at both ends.
use native.Mathlib.Nat.{mod-eq_of_lt}
use textbook_c_ds_deep.Prelude.{
  ℕ, zero, suc, ◌+◌, ◌^◌, ◌<◌, ◌≡◌, refl, sym, ap, ap₂, ◌∙◌, true, false, none, some, List, [], ◌∷◌,
  ◌++◌, arith, ◌==◌, length, length-append,
}
use textbook_c_ds_deep.Run.{Returns, returns, bind, weaken}
use textbook_c_ds_deep.Links.Route.{has, has-append}
use textbook_c_ds_deep.SinglyLinked.{
  Nodes, SinglyLinkedList, is_node, node_next, node_datum, put_node, node_new, sll_prepend,
  append_loop, sll_append,
}
use textbook_c_ds_deep.SinglyLinked.Segment
use textbook_c_ds_deep.SinglyLinked.Segment.{
  Segment, end_, link, HasNodes, Holds, data_of, not_null, not_same, node_else, node_there,
  data_frame, free_outside, Segment-is_node, read_next-ok, write_next-ok, length-data,
}
use textbook_c_ds_deep.SinglyLinked.Reverse.{turned, turned-datum, turned-is_node, turned-Segment}

-- The first node of a longer segment than none.
head_node : {g : Nodes} {p x : ℕ} {xs : List ℕ} → Segment g p (x ∷ xs) → is_node g p ≡ true
head_node (link alive next out rest) = alive

-- `next` of the last of the nodes becomes `n`, a node on its own.
record Extended (g : Nodes) (cur n : ℕ) (xs : List ℕ) (h : Nodes) : Type 0 where
  chain : Segment h cur (xs ++ n ∷ [])
  same : (c : ℕ) → has c xs ≡ false → h c ≡ g c
  data_ : (c : ℕ) → node_datum h c ≡ node_datum g c
  lives : (c : ℕ) → is_node h c ≡ is_node g c

append_loop-Extended :
    (fuel : ℕ) (g : Nodes) (n cur x : ℕ) (xs : List ℕ)
    → is_node g 0 ≡ false
    → is_node g n ≡ true
    → node_next g n ≡ 0
    → Segment g cur (x ∷ xs)
    → has n (x ∷ xs) ≡ false
    → length xs < fuel
    → Returns (Extended g cur n (x ∷ xs)) (append_loop fuel g cur n)
unfolding append_loop
append_loop-Extended zero g n cur x xs null fresh last s out enough = absurd (omega arith)
append_loop-Extended (suc fuel) g n cur x [] null fresh last (link alive next new end_) out enough =
    let h = turned g x n alive in
    let other : (n == x) ≡ false = ground (arith, out) in
    let at_n = node_else g x (some (record { datum = node_datum g x; next = n })) n other in
    rw (read_next-ok g x 0 alive next, write_next-ok g x n alive)
      (returns (record {
        chain =
            link (turned-is_node g x n alive x ∙ alive)
              (ap (λ o. elim o [ none ↦ 0 | some m ↦ m.next ]) (node_there g x _))
              (ground (arith, out))
              (link (turned-is_node g x n alive n ∙ fresh)
                (ap (λ o. elim o [ none ↦ 0 | some m ↦ m.next ]) at_n ∙ last) refl end_);
        same = λ c i. node_else g x _ c (ground (arith, i));
        data_ = turned-datum g x n alive;
        lives = turned-is_node g x n alive;
      }))
append_loop-Extended (suc fuel) g n cur x (y ∷ xs) null fresh last (link {q} alive next new s) out
      enough =
    let more = not_null g q null (head_node s) in
    rw (read_next-ok g x q alive next, more)
      (weaken
        (append_loop-Extended fuel g n q y xs null fresh last s (ground (arith, out)) (omega arith))
        λ h r.
          let here = r.same x new in
          record {
            chain =
                link (ap (λ o. elim o [ none ↦ false | some m ↦ true ]) here ∙ alive)
                  (ap (λ o. elim o [ none ↦ 0 | some m ↦ m.next ]) here ∙ next)
                  (ground (arith, new, out, has-append x (y ∷ xs) (n ∷ []))) r.chain;
            same = λ c i. r.same c (ground (arith, i));
            data_ = r.data_;
            lives = r.lives;
          })

null_head : {g : Nodes} {p : ℕ} → Segment g p [] → p ≡ 0
null_head end_ = refl

-- A new node with its datum, and what it leaves of a list.
module _ (g : Nodes) (n d : ℕ) (xs : List ℕ) (out : has n xs ≡ false) where
  abbrev fresh : Nodes
  fresh = put_node g n (some (record { datum = d; next = 0 }))

  fresh-is_node : is_node fresh n ≡ true
  fresh-is_node = ap (λ o. elim o [ none ↦ false | some m ↦ true ]) (node_there g n _)

  fresh-null : (n == 0) ≡ false → is_node g 0 ≡ false → is_node fresh 0 ≡ false
  fresh-null real null =
      ap (λ o. elim o [ none ↦ false | some m ↦ true ]) (node_else g n _ 0 (ground (arith, real)))
      ∙ null

  fresh-Segment : {p : ℕ} → Segment g p xs → Segment fresh p xs
  fresh-Segment s = Segment.frame s (λ c i. node_else g n _ c (not_same n c xs out i))

  fresh-datum : node_datum fresh n ≡ d
  fresh-datum = ap (λ o. elim o [ none ↦ 0 | some m ↦ m.datum ]) (node_there g n _)

  fresh-data_of : data_of fresh xs ≡ data_of g xs
  fresh-data_of = data_frame g fresh xs (λ c i.
      ap (λ o. elim o [ none ↦ 0 | some m ↦ m.datum ]) (node_else g n _ c (not_same n c xs out i)))

data-append : (g : Nodes) (xs ys : List ℕ) → data_of g (xs ++ ys) ≡ data_of g xs ++ data_of g ys
data-append g [] ys = refl
data-append g (x ∷ xs) ys = ap (λ l. node_datum g x ∷ l) (data-append g xs ys)

module _ (list : SinglyLinkedList) (n d : ℕ) (xs : List ℕ) (h : HasNodes list xs)
    (free : list.nodes n ≡ none) (real : (n == 0) ≡ false) (fits : length xs + 1 < 2 ^ 64) where
  prepend-Holds :
      Returns (λ out. Holds out (d ∷ data_of list.nodes xs)) (sll_prepend (some n) list d)
  unfolding sll_prepend node_new
  prepend-Holds =
      let out = free_outside n h.chain free in
      let g = fresh list.nodes n d xs out in
      let alive = fresh-is_node list.nodes n d xs out in
      rw (write_next-ok g n list.head alive) (
        returns (
          n ∷ xs,
          record {
            chain =
                link (turned-is_node g n list.head alive n ∙ alive)
                  (ap (λ o. elim o [ none ↦ 0 | some m ↦ m.next ]) (node_there g n _)) out
                  (turned-Segment g n list.head alive out
                    (fresh-Segment list.nodes n d xs out h.chain));
            size = mod-eq_of_lt (omega (arith, h.size, fits)) ∙ omega (arith, h.size);
            null =
                turned-is_node g n list.head alive 0 ∙ fresh-null list.nodes n d xs out real h.null;
          },
          ap₂ (λ x l. x ∷ l)
              (turned-datum g n list.head alive n ∙ fresh-datum list.nodes n d xs out)
              (data_frame g (turned g n list.head alive) xs
                  (λ c i. turned-datum g n list.head alive c)
                ∙ fresh-data_of list.nodes n d xs out),
        ))

  append_empty :
      xs ≡ []
      → list.head ≡ 0
      → Returns
          (λ out. Holds out (data_of list.nodes xs ++ d ∷ []))
          (sll_append (length xs) (some n) list d)
  unfolding sll_append node_new
  append_empty none_ at_null =
      let out = free_outside n h.chain free in
      let g = fresh list.nodes n d xs out in
      let empty : (list.head == 0) ≡ true = ground (arith, at_null) in
      let none_left = ap length none_ in
      rw empty (
        returns (
          n ∷ [],
          record {
            chain =
                link (fresh-is_node list.nodes n d xs out)
                  (ap (λ o. elim o [ none ↦ 0 | some m ↦ m.next ]) (node_there list.nodes n _)) refl
                  end_;
            size = mod-eq_of_lt (omega (arith, h.size, fits)) ∙ omega (arith, h.size, none_left);
            null = fresh-null list.nodes n d xs out real h.null;
          },
          ap (λ x. x ∷ []) (fresh-datum list.nodes n d xs out)
              ∙ ap (λ (l : List ℕ). data_of list.nodes l ++ d ∷ []) (sym none_),
        ))

  append_behind :
      (x : ℕ) (rest : List ℕ)
      → xs ≡ x ∷ rest
      → (list.head == 0) ≡ false
      → Returns
          (λ out. Holds out (data_of list.nodes xs ++ d ∷ []))
          (sll_append (length xs) (some n) list d)
  unfolding sll_append node_new
  append_behind x rest e some_ =
      let out = free_outside n h.chain free in
      let g = fresh list.nodes n d xs out in
      let null = fresh-null list.nodes n d xs out real h.null in
      let alive = fresh-is_node list.nodes n d xs out in
      let last : node_next g n ≡ 0 =
        ap (λ o. elim o [ none ↦ 0 | some m ↦ m.next ])
          (node_there list.nodes n (some (record { datum = d; next = 0 }))) in
      let size = ap length e in
      let chain = rw e at (fresh-Segment list.nodes n d xs out h.chain) in
      rw some_ (
        bind
          (append_loop-Extended (length xs) g n list.head x rest null alive last chain (rw e at out)
            (omega (arith, size)))
          λ k r. returns (
            xs ++ n ∷ [],
            record {
              chain = rw e r.chain;
              size =
                  mod-eq_of_lt (omega (arith, h.size, fits))
                  ∙ omega (arith, h.size, length-append xs (n ∷ []));
              null = r.lives 0 ∙ null;
            },
            data-append k xs (n ∷ [])
                ∙ ap₂ (λ (l m : List ℕ). l ++ m)
                    (data_frame g k xs (λ c i. r.data_ c) ∙ fresh-data_of list.nodes n d xs out)
                    (ap (λ y. y ∷ []) (r.data_ n ∙ fresh-datum list.nodes n d xs out)),
          ))

-- `sll_prepend` and `sll_append` with a new node that malloc finds: the datum stands before, or behind,
-- those that the list held. The append ends: as many rounds as there are nodes are enough.
pub sll_insert-Holds :
    (list : SinglyLinkedList) (n d : ℕ) (vs : List ℕ)
    → Holds list vs
    → list.nodes n ≡ none
    → (n == 0) ≡ false
    → length vs + 1 < 2 ^ 64
    → Returns (λ out. Holds out (d ∷ vs)) (sll_prepend (some n) list d)
      × Returns (λ out. Holds out (vs ++ d ∷ [])) (sll_append (length vs) (some n) list d)
sll_insert-Holds list n d vs (xs, h, e) free real fits =
    let size : length vs ≡ length xs = sym (ap length e) ∙ length-data list.nodes xs in
    let room : length xs + 1 < 2 ^ 64 = omega arith in
    (
      rw e at (prepend-Holds list n d xs h free real room),
      rw (e, sym size) at (by_nodes xs h room h.chain),
    )
  where
    by_nodes :
        (ys : List ℕ)
        → HasNodes list ys
        → length ys + 1 < 2 ^ 64
        → Segment list.nodes list.head ys
        → Returns
            (λ out. Holds out (data_of list.nodes ys ++ d ∷ []))
            (sll_append (length ys) (some n) list d)
    by_nodes [] k room s = append_empty list n d [] k free real room refl (null_head s)
    by_nodes (x ∷ ys) k room s =
        append_behind list n d (x ∷ ys) k free real room x ys refl
          (not_null list.nodes list.head h.null (head_node s))
