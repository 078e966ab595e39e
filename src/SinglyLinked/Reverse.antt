-- ===== src/SinglyLinked/Reverse.antt =====
-- Reversal in place.
use mathlib.Core.List.{reverse, reverse_aux}
use textbook_c_ds_deep.Prelude.{
  ℕ, zero, suc, ◌+◌, ◌<◌, ◌≡◌, refl, sym, ap, ◌∙◌, true, false, none, some, List, [], ◌∷◌, arith,
  ◌==◌, Bool-cases, inl, inr, length,
}
use textbook_c_ds_deep.Run.{Returns, returns, bind, weaken}
use textbook_c_ds_deep.Links.Route.{has}
use textbook_c_ds_deep.SinglyLinked.{
  Nodes, SinglyLinkedList, is_node, node_next, node_datum, put_node, reverse_links, sll_reverse,
}
use textbook_c_ds_deep.SinglyLinked.Segment
use textbook_c_ds_deep.SinglyLinked.Segment.{
  Segment, end_, link, HasNodes, Holds, data_of, not_null, not_same, node_else, node_there,
  data_frame, length-data, read_next-ok, write_next-ok,
}

-- The nodes turned round, with their data.
record Turned (g : Nodes) (xs ys : List ℕ) (out : ℕ × Nodes) : Type 0 where
  chain : Segment out.1 out.0 (reverse_aux xs ys)
  data_ : (c : ℕ) → node_datum out.1 c ≡ node_datum g c
  lives : (c : ℕ) → is_node out.1 c ≡ is_node g c

-- One node turned towards `prev`.
module _ (g : Nodes) (cur prev : ℕ) (alive : is_node g cur ≡ true) where
  abbrev pub turned : Nodes
  turned = put_node g cur (some (record { datum = node_datum g cur; next = prev }))

  pub turned-datum : (c : ℕ) → node_datum turned c ≡ node_datum g c
  turned-datum c = elim (Bool-cases (c == cur)) [
    | inl same ↦
        let e : c ≡ cur = ground arith in
        rw e (ap (λ o. elim o [ none ↦ 0 | some n ↦ n.datum ]) (node_there g cur _))
    | inr other ↦ ap (λ o. elim o [ none ↦ 0 | some n ↦ n.datum ]) (node_else g cur _ c other)
  ]

  pub turned-is_node : (c : ℕ) → is_node turned c ≡ is_node g c
  turned-is_node c = elim (Bool-cases (c == cur)) [
    | inl same ↦
        let e : c ≡ cur = ground arith in
        rw e (ap (λ o. elim o [ none ↦ false | some n ↦ true ]) (node_there g cur _) ∙ sym alive)
    | inr other ↦ ap (λ o. elim o [ none ↦ false | some n ↦ true ]) (node_else g cur _ c other)
  ]

  -- Segments that the node is not on stay.
  pub turned-Segment :
      {p : ℕ} {xs : List ℕ} → has cur xs ≡ false → Segment g p xs → Segment turned p xs
  turned-Segment {p} {xs} out s =
      Segment.frame s (λ c i. node_else g cur _ c (not_same cur c xs out i))

reverse_links-Turned :
    (fuel : ℕ) (g : Nodes) {prev cur : ℕ} (xs ys : List ℕ)
    → is_node g 0 ≡ false
    → Segment g cur xs
    → Segment g prev ys
    → ((c : ℕ) → has c xs ≡ true → has c ys ≡ false)
    → length xs < fuel
    → Returns (Turned g xs ys) (reverse_links fuel g prev cur)
unfolding reverse_links
reverse_links-Turned zero g xs ys null s t apart enough = absurd (omega arith)
reverse_links-Turned (suc fuel) g [] ys null end_ t apart enough =
    returns (record { chain = t; data_ = λ c. refl; lives = λ c. refl })
reverse_links-Turned (suc fuel) g {prev} {cur} (x ∷ xs) ys null (link alive next out rest) t apart
      enough =
    let h = turned g cur prev alive in
    let y_out = apart x (ground arith) in
    let here : is_node h x ≡ true = turned-is_node g cur prev alive x ∙ alive in
    let next_here : node_next h x ≡ prev =
      ap (λ o. elim o [ none ↦ 0 | some n ↦ n.next ]) (node_there g x _) in
    rw (not_null g x null alive, read_next-ok g x _ alive next, write_next-ok g x prev alive)
      (weaken
        (reverse_links-Turned fuel h xs (x ∷ ys) (turned-is_node g cur prev alive 0 ∙ null)
          (turned-Segment g cur prev alive out rest)
          (link here next_here y_out (turned-Segment g cur prev alive y_out t))
          (λ c i. ground (arith, i, not_same x c xs out i, apart c (ground (arith, i))))
          (omega arith))
        λ out r. record {
          chain = r.chain;
          data_ = λ c. r.data_ c ∙ turned-datum g cur prev alive c;
          lives = λ c. r.lives c ∙ turned-is_node g cur prev alive c;
        })

data_of-turned :
    (g : Nodes) (xs ys : List ℕ)
    → data_of g (reverse_aux xs ys) ≡ reverse_aux (data_of g xs) (data_of g ys)
data_of-turned g [] ys = refl
data_of-turned g (x ∷ xs) ys = data_of-turned g xs (x ∷ ys)

length-turned : (xs ys : List ℕ) → length (reverse_aux xs ys) ≡ length xs + length ys
length-turned [] ys = omega arith
length-turned (x ∷ xs) ys = omega (arith, length-turned xs (x ∷ ys))

-- `sll_reverse` ends, one round after the last node, and turns the order of the data round; each
-- node keeps its address and its datum.
pub sll_reverse-Holds :
    (list : SinglyLinkedList) (vs : List ℕ)
    → Holds list vs
    → Returns (λ out. Holds out (reverse vs)) (sll_reverse (suc (length vs)) list)
unfolding sll_reverse
sll_reverse-Holds list vs (xs, h, e) =
    let size : length vs ≡ length xs = sym (ap length e) ∙ length-data list.nodes xs in
    bind
      (reverse_links-Turned (suc (length vs)) list.nodes xs [] h.null h.chain end_ (λ c i. refl)
        (omega arith))
      λ out t. returns (
        reverse xs,
        record {
          chain = t.chain;
          size = omega (arith, h.size, length-turned xs []);
          null = t.lives 0 ∙ h.null;
        },
        data_frame list.nodes out.1 (reverse xs) (λ c i. t.data_ c)
            ∙ data_of-turned list.nodes xs []
            ∙ ap (λ (l : List ℕ). reverse l) e,
      )
