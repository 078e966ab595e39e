-- ===== src/LockFree/Memory.antt =====
-- What a write to a node and the exchange of the head keep.
use textbook_c_ds_deep.Prelude.{
  ℕ, ◌≤◌, ◌≡◌, refl, sym, false, List, [], ◌∷◌, arith, ◌==◌, Bool-cases, inl, inr,
}
use textbook_c_ds_deep.Links.Route.{has}
use textbook_c_ds_deep.LockFree.{
  Local, idle, push_load, push_link, push_cas, pop_load, pop_next, pop_cas, State, set_link,
}
use textbook_c_ds_deep.LockFree.Keeps.{owner, read_head, Knows, IsChain, Holds}

first_apart : (n x : ℕ) (xs : List ℕ) → has n (x ∷ xs) ≡ false → (x == n) ≡ false
first_apart n x xs off = ground (arith, off)

-- A write to a node that is not on the stack leaves the stack alone.
pub set_link-IsChain :
    (s : State) (n q p : ℕ) (xs : List ℕ)
    → has n xs ≡ false
    → IsChain s.next p xs
    → IsChain (set_link s n q).next p xs
unfolding IsChain set_link
set_link-IsChain s n q p [] off c = c
set_link-IsChain s n q p (x ∷ xs) off (at, nonzero, rest) = (
  at,
  nonzero,
  rw (first_apart n x xs off) (set_link-IsChain s n q (s.next x) xs (ground (arith, off)) rest),
)

-- What a thread knows is still true where the node is not its own, nor the head that it read.
pub set_link-Knows :
    (s : State) (n q : ℕ) (l : Local)
    → ((owner l == 0) ≡ false → (owner l == n) ≡ false)
    → ((read_head l == 0) ≡ false → (read_head l == n) ≡ false)
    → Knows s.next l
    → Knows (set_link s n q).next l
unfolding Knows set_link
set_link-Knows s n q idle ow rd k = k
set_link-Knows s n q (push_load m) ow rd k = k
set_link-Knows s n q (push_link m old) ow rd k = k
set_link-Knows s n q (push_cas m old) ow rd (real, at) = (real, rw (ow real) at)
set_link-Knows s n q pop_load ow rd k = k
set_link-Knows s n q (pop_next old) ow rd k = k
set_link-Knows s n q (pop_cas old new) ow rd (real, at) = (real, rw (rd real) at)

pub set_link-Holds :
    (s : State) (n q : ℕ) (xs : List ℕ)
    → Holds s xs
    → has n xs ≡ false
    → ((u : ℕ) → Knows (set_link s n q).next (s.threads u))
    → Holds (set_link s n q) xs
unfolding set_link
set_link-Holds s n q xs h off k = record {
  chain = set_link-IsChain s n q s.head xs off h.chain;
  bounded = h.bounded;
  real = h.real;
  owned = h.owned;
  owned_bounded = h.owned_bounded;
  owned_apart = h.owned_apart;
  read_bounded = h.read_bounded;
  read_apart = h.read_apart;
  known = k;
}

-- The head goes to a node that no thread is pushing, linked to the stack: the node is on top.
pub head_push-Holds :
    (s : State) (n : ℕ) (xs : List ℕ)
    → Holds s xs
    → (n == 0) ≡ false
    → n ≤ s.alloc_idx
    → s.next n ≡ s.head
    → ((u : ℕ) → (owner (s.threads u) == n) ≡ false)
    → Holds (record s { head = n }) (n ∷ xs)
unfolding IsChain
head_push-Holds s n xs h nonzero low at off = record {
  chain = (refl, nonzero, rw at h.chain);
  bounded = λ c. elim (Bool-cases (c == n)) [
    | inl here ↦ λ _. ground (arith, here, low)
    | inr other ↦ λ on. h.bounded c (ground (arith, on, other))
  ];
  real = ground (arith, nonzero, h.real);
  owned = λ u. ground (arith, off u, h.owned u);
  owned_bounded = h.owned_bounded;
  owned_apart = h.owned_apart;
  read_bounded = h.read_bounded;
  read_apart = h.read_apart;
  known = h.known;
}

-- The head goes to the node below the top: the top is off the stack.
pub head_pop-Holds :
    (s : State) (new x : ℕ) (xs : List ℕ)
    → Holds s (x ∷ xs)
    → s.next x ≡ new
    → Holds (record s { head = new }) xs
unfolding IsChain
head_pop-Holds s new x xs h at = record {
  chain = rw (sym at) h.chain.2;
  bounded = λ c on. h.bounded c (ground (arith, on));
  real = ground (arith, h.real);
  owned = λ u. ground (arith, h.owned u);
  owned_bounded = h.owned_bounded;
  owned_apart = h.owned_apart;
  read_bounded = h.read_bounded;
  read_apart = h.read_apart;
  known = h.known;
}
