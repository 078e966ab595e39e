-- ===== src/LockFree/Keeps.antt =====
-- What every step keeps: the nodes on the stack, those that threads are pushing, and what threads read.
use textbook_c_ds_deep.Prelude.{
  ℕ, ◌≤◌, ◌≡◌, true, false, List, [], ◌∷◌, arith, ◌==◌, Bool-cases, inl, inr,
}
use textbook_c_ds_deep.Links.Route.{has}
use textbook_c_ds_deep.LockFree.{
  Local, idle, push_load, push_link, push_cas, pop_load, pop_next, pop_cas, State, goes,
}

-- The node that a thread is pushing, and the one that it read as the head to pop; 0 where there is none.
abbrev pub owner : Local → ℕ
owner idle = 0
owner (push_load n) = n
owner (push_link n old) = n
owner (push_cas n old) = n
owner pop_load = 0
owner (pop_next old) = 0
owner (pop_cas old new) = 0

abbrev pub read_head : Local → ℕ
read_head idle = 0
read_head (push_load n) = 0
read_head (push_link n old) = 0
read_head (push_cas n old) = 0
read_head pop_load = 0
read_head (pop_next old) = old
read_head (pop_cas old new) = old

-- What a thread knows of the nodes.
unfoldable pub Knows : (ℕ → ℕ) → Local → Type 0
Knows next idle = Unit {0}
Knows next (push_load n) = (n == 0) ≡ false
Knows next (push_link n old) = (n == 0) ≡ false
Knows next (push_cas n old) = ((n == 0) ≡ false) × (next n ≡ old)
Knows next pop_load = Unit {0}
Knows next (pop_next old) = (old == 0) ≡ false
Knows next (pop_cas old new) = ((old == 0) ≡ false) × (next old ≡ new)

-- The nodes from `p` on are `xs`.
unfoldable pub IsChain : (ℕ → ℕ) → ℕ → List ℕ → Type 0
IsChain next p [] = p ≡ 0
IsChain next p (x ∷ xs) = (p ≡ x) × ((x == 0) ≡ false) × IsChain next (next x) xs

-- The stack holds the nodes `xs`, the top first.
pub record Holds (s : State) (xs : List ℕ) : Type 0 where
  pub chain : IsChain s.next s.head xs
  pub bounded : (c : ℕ) → has c xs ≡ true → c ≤ s.alloc_idx
  pub real : has 0 xs ≡ false
  pub owned : (t : ℕ) → has (owner (s.threads t)) xs ≡ false
  pub owned_bounded : (t : ℕ) → owner (s.threads t) ≤ s.alloc_idx
  pub owned_apart :
      (t u : ℕ)
      → (t == u) ≡ false
      → (owner (s.threads t) == 0) ≡ false
      → (owner (s.threads t) == owner (s.threads u)) ≡ false
  pub read_bounded : (t : ℕ) → read_head (s.threads t) ≤ s.alloc_idx
  pub read_apart :
      (t u : ℕ)
      → (read_head (s.threads t) == 0) ≡ false
      → (read_head (s.threads t) == owner (s.threads u)) ≡ false
  pub known : (t : ℕ) → Knows s.next (s.threads t)

-- The place of a thread fits the stack `xs` and the places of the others.
pub record Joins (s : State) (t : ℕ) (l : Local) (xs : List ℕ) : Type 0 where
  pub owned : has (owner l) xs ≡ false
  pub owned_bounded : owner l ≤ s.alloc_idx
  pub owned_apart :
      (u : ℕ) → (u == t) ≡ false → (owner l == 0) ≡ false → (owner l == owner (s.threads u)) ≡ false
  pub read_bounded : read_head l ≤ s.alloc_idx
  pub read_apart :
      (u : ℕ)
      → (u == t) ≡ false
      → (read_head l == 0) ≡ false
      → (read_head l == owner (s.threads u)) ≡ false
  pub read_self : (read_head l == 0) ≡ false → (read_head l == owner l) ≡ false
  pub others_read :
      (u : ℕ)
      → (u == t) ≡ false
      → (read_head (s.threads u) == 0) ≡ false
      → (read_head (s.threads u) == owner l) ≡ false
  pub known : Knows s.next l

-- Then the thread may go there.
pub goes-Holds :
    (s : State) (t : ℕ) (l : Local) (xs : List ℕ)
    → Holds s xs
    → Joins s t l xs
    → Holds (goes s t l) xs
unfolding goes
goes-Holds s t l xs h j = record {
  chain = h.chain;
  bounded = h.bounded;
  real = h.real;
  owned = λ u. elim (Bool-cases (u == t)) [
    | inl here ↦ rw here j.owned
    | inr other ↦ rw other (h.owned u)
  ];
  owned_bounded = λ u. elim (Bool-cases (u == t)) [
    | inl here ↦ rw here j.owned_bounded
    | inr other ↦ rw other (h.owned_bounded u)
  ];
  owned_apart = λ u v apart. elim (Bool-cases (u == t)) [
    | inl here ↦ elim (Bool-cases (v == t)) [
      | inl there ↦ absurd (ground (arith, here, there, apart))
      | inr other ↦ rw (here, other) (j.owned_apart v other)
    ]
    | inr here ↦ elim (Bool-cases (v == t)) [
      | inl there ↦
          rw (here, there)
            (λ owns. elim (Bool-cases (owner l == 0)) [
              | inl none_ ↦ ground (arith, owns, none_)
              | inr some_ ↦ ground (arith, j.owned_apart u here some_)
            ])
      | inr other ↦ rw (here, other) (h.owned_apart u v apart)
    ]
  ];
  read_bounded = λ u. elim (Bool-cases (u == t)) [
    | inl here ↦ rw here j.read_bounded
    | inr other ↦ rw other (h.read_bounded u)
  ];
  read_apart = λ u v. elim (Bool-cases (u == t)) [
    | inl here ↦ elim (Bool-cases (v == t)) [
      | inl there ↦ rw (here, there) j.read_self
      | inr other ↦ rw (here, other) (j.read_apart v other)
    ]
    | inr here ↦ elim (Bool-cases (v == t)) [
      | inl there ↦ rw (here, there) (j.others_read u here)
      | inr other ↦ rw (here, other) (h.read_apart u v)
    ]
  ];
  known = λ u. elim (Bool-cases (u == t)) [
    | inl here ↦ rw here j.known
    | inr other ↦ rw other (h.known u)
  ];
}
