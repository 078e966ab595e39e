-- ===== src/SinglyLinked/Segment.antt =====
-- The nodes of a list in memory.
use textbook_c_ds_deep.Prelude.{
  ℕ, suc, ◌≡◌, refl, sym, ap, ap₂, ◌∙◌, true, false, Option, none, some, List, [], ◌∷◌, arith, ◌==◌,
  Bool-cases, inl, inr, length,
}
use textbook_c_ds_deep.Run.{ok}
use textbook_c_ds_deep.Links.Route.{has}
use textbook_c_ds_deep.SinglyLinked.{
  Node, Nodes, SinglyLinkedList, is_node, node_next, node_datum, put_node, read_next, write_next,
}

-- From `p` the links lead through the distinct nodes `xs` to NULL.
pub data Segment (g : Nodes) : ℕ → List ℕ → Type 0 where
  end_ : Segment g 0 []
  link :
      {p q : ℕ} {xs : List ℕ}
      → is_node g p ≡ true
      → node_next g p ≡ q
      → has p xs ≡ false
      → Segment g q xs
      → Segment g p (p ∷ xs)

-- The list has the nodes `xs`, and no node lies at NULL.
pub record HasNodes (list : SinglyLinkedList) (xs : List ℕ) : Type 0 where
  pub chain : Segment list.nodes list.head xs
  pub size : list.size ≡ length xs
  pub null : is_node list.nodes 0 ≡ false

-- The data of some nodes.
abbrev pub data_of : Nodes → List ℕ → List ℕ
data_of g [] = []
data_of g (x ∷ xs) = node_datum g x ∷ data_of g xs

-- The list holds the data `vs`, first to last.
abbrev pub Holds : SinglyLinkedList → List ℕ → Type 0
Holds list vs = (xs : List ℕ) × HasNodes list xs × (data_of list.nodes xs ≡ vs)

pub not_null : (g : Nodes) (p : ℕ) → is_node g 0 ≡ false → is_node g p ≡ true → (p == 0) ≡ false
not_null g p null h = elim (Bool-cases (p == 0)) [
  | inl zero_ ↦
      let e : p ≡ 0 = ground arith in let bad : false ≡ true = sym null ∙ rw e at h in absurd cc
  | inr other ↦ other
]

-- Membership tells addresses apart.
pub not_same : (p c : ℕ) (xs : List ℕ) → has p xs ≡ false → has c xs ≡ true → (c == p) ≡ false
not_same p c xs out i = elim (Bool-cases (c == p)) [
  | inl same ↦
      let e : c ≡ p = ground arith in let bad : false ≡ true = sym out ∙ rw e at i in absurd cc
  | inr other ↦ other
]

module _ (g : Nodes) (p : ℕ) (n : Option Node) (c : ℕ) (other : (c == p) ≡ false) where
  pub node_else : put_node g p n c ≡ g c
  unfolding put_node
  node_else = rw other refl

pub node_there : (g : Nodes) (p : ℕ) (n : Option Node) → put_node g p n p ≡ n
unfolding put_node
node_there g p n = let same : (p == p) ≡ true = ground arith in rw same refl

-- A segment stays where its nodes stay.
pub frame :
    {g h : Nodes} {p : ℕ} {xs : List ℕ}
    → Segment g p xs
    → ((c : ℕ) → has c xs ≡ true → h c ≡ g c)
    → Segment h p xs
frame end_ same = end_
frame {g} {h} (link {p} {q} {xs} alive next out rest) same =
    let here = same p (ground arith) in
    link (ap (λ o. elim o [ none ↦ false | some n ↦ true ]) here ∙ alive)
      (ap (λ o. elim o [ none ↦ 0 | some n ↦ n.next ]) here ∙ next) out
      (frame rest (λ c i. same c (ground (arith, i))))

pub data_frame :
    (g h : Nodes) (xs : List ℕ)
    → ((c : ℕ) → has c xs ≡ true → node_datum h c ≡ node_datum g c)
    → data_of h xs ≡ data_of g xs
data_frame g h [] same = refl
data_frame g h (x ∷ xs) same =
    ap₂ (λ d t. d ∷ t) (same x (ground arith))
      (data_frame g h xs (λ c i. same c (ground (arith, i))))

-- A node in memory is none of a segment that it would close.
pub Segment-is_node :
    {g : Nodes} {p : ℕ} {xs : List ℕ} (c : ℕ)
    → Segment g p xs
    → has c xs ≡ true
    → is_node g c ≡ true
Segment-is_node c end_ i = absurd cc
Segment-is_node {g} c (link {p} alive next out rest) i = elim (Bool-cases (c == p)) [
  | inl same ↦ let e : c ≡ p = ground arith in rw e alive
  | inr other ↦ Segment-is_node c rest (ground (arith, i))
]

pub free_outside :
    {g : Nodes} {p : ℕ} {xs : List ℕ} (n : ℕ) → Segment g p xs → g n ≡ none → has n xs ≡ false
free_outside {g} {p} {xs} n s free = elim (Bool-cases (has n xs)) [
  | inl inside ↦ let bad = rw (is_node, free) at (Segment-is_node n s inside) in absurd cc
  | inr out ↦ out
]

pub read_next-ok :
    (g : Nodes) (p q : ℕ) → is_node g p ≡ true → node_next g p ≡ q → read_next g p ≡ ok q
unfolding read_next
read_next-ok g p q h e = rw (h, e) refl

pub write_next-ok :
    (g : Nodes) (p q : ℕ)
    → is_node g p ≡ true
    → write_next g p q ≡ ok (put_node g p (some (record { datum = node_datum g p; next = q })))
unfolding write_next
write_next-ok g p q h = rw h refl

pub length-data : (g : Nodes) (xs : List ℕ) → length (data_of g xs) ≡ length xs
length-data g [] = refl
length-data g (x ∷ xs) = ap suc (length-data g xs)
