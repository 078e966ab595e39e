-- ===== src/LockFree/Moves.antt =====
-- The steps of the stack on a state that holds a list of nodes.
use textbook_c_ds_deep.Prelude.{
  ℕ, ◌+◌, ◌≤◌, ◌≡◌, refl, sym, true, false, List, [], ◌∷◌, arith, ◌==◌, Bool-cases, inl, inr,
}
use textbook_c_ds_deep.Links.Route.{has}
use textbook_c_ds_deep.LockFree.{Local, State, alloc_node}
use textbook_c_ds_deep.LockFree.Keeps.{owner, read_head, Knows, IsChain, Holds, Joins}
use textbook_c_ds_deep.LockFree.Memory.{set_link-Knows, set_link-Holds}

-- A place that neither pushes a node nor has read the head fits any stack.
pub free-Joins :
    (s : State) (t : ℕ) (l : Local) (xs : List ℕ)
    → Holds s xs
    → owner l ≡ 0
    → read_head l ≡ 0
    → Knows s.next l
    → Joins s t l xs
free-Joins s t l xs h none_ unread k = record {
  owned = rw none_ h.real;
  owned_bounded = ground (arith, none_);
  owned_apart = λ u _ owns. ground (arith, owns, none_);
  read_bounded = ground (arith, unread);
  read_apart = λ u _ reads. ground (arith, reads, unread);
  read_self = λ reads. ground (arith, reads, unread);
  others_read = λ u _ reads. rw none_ reads;
  known = k;
}

-- A place that pushes the node that the thread is pushing fits the stack.
pub pushing-Joins :
    (s : State) (t : ℕ) (l : Local) (xs : List ℕ)
    → Holds s xs
    → owner (s.threads t) ≡ owner l
    → read_head l ≡ 0
    → Knows s.next l
    → Joins s t l xs
pushing-Joins s t l xs h same unread k = record {
  owned = rw (sym same) (h.owned t);
  owned_bounded = rw (sym same) (h.owned_bounded t);
  owned_apart = λ u other. rw (sym same) (h.owned_apart t u (ground (arith, other)));
  read_bounded = ground (arith, unread);
  read_apart = λ u _ reads. ground (arith, reads, unread);
  read_self = λ reads. ground (arith, reads, unread);
  others_read = λ u _ reads. rw (sym same) (h.read_apart u t reads);
  known = k;
}

-- A place that has read a node of the stack, or read one before, fits the stack.
pub popping-Joins :
    (s : State) (t : ℕ) (l : Local) (xs : List ℕ)
    → Holds s xs
    → owner l ≡ 0
    → (read_head l == 0) ≡ false
    → read_head l ≤ s.alloc_idx
    → ((u : ℕ) → (read_head l == owner (s.threads u)) ≡ false)
    → Knows s.next l
    → Joins s t l xs
popping-Joins s t l xs h none_ reads low off k = record {
  owned = rw none_ h.real;
  owned_bounded = ground (arith, none_);
  owned_apart = λ u _ owns. ground (arith, owns, none_);
  read_bounded = low;
  read_apart = λ u _ _. off u;
  read_self = λ _. ground (arith, none_, reads);
  others_read = λ u _ other. rw none_ other;
  known = k;
}

has_same : (a b : ℕ) (ys : List ℕ) → (a == b) ≡ true → has a ys ≡ has b ys
has_same a b [] same = refl
has_same a b (y ∷ ys) same = ground (arith, same, has_same a b ys same)

-- A node of the stack is not one that a thread is pushing.
pub on_stack_apart :
    (s : State) (x : ℕ) (xs : List ℕ)
    → Holds s xs
    → has x xs ≡ true
    → (u : ℕ) → (x == owner (s.threads u)) ≡ false
on_stack_apart s x xs h on u = elim (Bool-cases (x == owner (s.threads u))) [
  | inl same ↦ absurd (ground (arith, has_same x (owner (s.threads u)) xs same, on, h.owned u))
  | inr other ↦ other
]

-- The head of a state is on its stack, where it is no null pointer.
pub head_on_stack :
    (s : State) (xs : List ℕ) → Holds s xs → (s.head == 0) ≡ false → has s.head xs ≡ true
unfolding IsChain
head_on_stack s [] h some_ = ground (arith, h.chain, some_)
head_on_stack s (x ∷ xs) h some_ = ground (arith, h.chain.0)

pub fresh_off : (s : State) (xs : List ℕ) → Holds s xs → has (s.alloc_idx + 1) xs ≡ false
fresh_off s xs h = elim (Bool-cases (has (s.alloc_idx + 1) xs)) [
  | inl on ↦ absurd (ground (arith, h.bounded (s.alloc_idx + 1) on))
  | inr off ↦ off
]

pub alloc_node-Holds : (s : State) (xs : List ℕ) → Holds s xs → Holds (alloc_node s) xs
alloc_node-Holds s xs h =
    set_link-Holds (record s { alloc_idx = s.alloc_idx + 1 }) (s.alloc_idx + 1) 0 xs
      (record {
        chain = h.chain;
        bounded = λ c on. ground (arith, h.bounded c on);
        real = h.real;
        owned = h.owned;
        owned_bounded = λ u. ground (arith, h.owned_bounded u);
        owned_apart = h.owned_apart;
        read_bounded = λ u. ground (arith, h.read_bounded u);
        read_apart = h.read_apart;
        known = h.known;
      })
      (fresh_off s xs h)
      (λ u.
        set_link-Knows (record s { alloc_idx = s.alloc_idx + 1 }) (s.alloc_idx + 1) 0 (s.threads u)
          (λ _. ground (arith, h.owned_bounded u)) (λ _. ground (arith, h.read_bounded u))
          (h.known u))
