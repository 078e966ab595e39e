-- ===== src/LockFree/Linear.antt =====
-- lockfree_stack.c is linearizable: its steps, in the order that they take effect, are those of a list.
use textbook_c_ds_deep.Prelude.{
  ℕ, ◌+◌, ◌≡◌, refl, sym, ap, ◌∙◌, true, false, List, [], ◌∷◌, arith, ◌==◌, if◌then◌else◌,
  Bool-cases, inl, inr, Option, none, some,
}
use textbook_c_ds_deep.LockFree.{
  Local, idle, push_load, push_link, push_cas, pop_load, pop_next, pop_cas, State, goes, set_link,
  alloc_node, Outcome, silent, pushed, popped, found_empty, Step, push_begins, push_loads,
  push_links, push_succeeds, push_retries, pop_begins, pop_finds_none, pop_loads, pop_reads,
  pop_succeeds, pop_retries, lf_stack_init, Run_, start, then_,
}
use textbook_c_ds_deep.LockFree.Keeps.{owner, read_head, Knows, IsChain, Holds, goes-Holds}
use textbook_c_ds_deep.LockFree.Memory.{
  set_link-Holds, set_link-Knows, head_push-Holds, head_pop-Holds,
}
use textbook_c_ds_deep.LockFree.Moves.{
  free-Joins, pushing-Joins, popping-Joins, on_stack_apart, head_on_stack, fresh_off,
  alloc_node-Holds,
}

-- What an event does to a list, where a list allows it: the head is the top.
unfoldable pub effect : Outcome → List ℕ → Option (List ℕ)
effect silent xs = some xs
effect (pushed n) xs = some (n ∷ xs)
effect (popped n) [] = none
effect (popped n) (x ∷ xs) = if x == n then some xs else none
effect found_empty [] = some []
effect found_empty (x ∷ xs) = none

unfoldable pub then_effect : Outcome → Option (List ℕ) → Option (List ℕ)
then_effect e none = none
then_effect e (some xs) = effect e xs

-- The events of a run, the newest first, one after another on an empty list.
unfoldable pub replay : List Outcome → Option (List ℕ)
replay [] = some []
replay (e ∷ es) = then_effect e (replay es)

-- The state after a step holds the list that the event of the step gives.
After : Outcome → List ℕ → State → Type 0
After e xs s = (ys : List ℕ) × (effect e xs ≡ some ys) × Holds s ys

quiet : {s : State} {xs : List ℕ} → Holds s xs → After silent xs s
unfolding After effect
quiet {s} {xs} h = (xs, refl, h)

Knows-at :
    (s : State) (t : ℕ) (l : Local) (xs : List ℕ) → Holds s xs → s.threads t ≡ l → Knows s.next l
Knows-at s t l xs h at = rw (sym at) (h.known t)

-- The thread that pushed its node is idle, and no thread pushes that node.
no_owner :
    (s : State) (t n : ℕ) (xs : List ℕ)
    → Holds s xs
    → (n == 0) ≡ false
    → owner (s.threads t) ≡ n
    → (u : ℕ) → (owner ((goes s t idle).threads u) == n) ≡ false
unfolding goes
no_owner s t n xs h real own u = elim (Bool-cases (u == t)) [
  | inl here ↦ rw here (ground (arith, real))
  | inr other ↦
      rw (other, sym own)
        (ground
          (arith, own, real, h.owned_apart t u (ground (arith, other)) (ground (arith, own, real))))
]

push_succeeds-After :
    (s : State) (t n old : ℕ) (xs : List ℕ)
    → Holds s xs
    → s.threads t ≡ push_cas n old
    → s.head ≡ old
    → After (pushed n) xs (goes (record s { head = n }) t idle)
unfolding After effect goes Knows
push_succeeds-After s t n old xs h at eq =
    let k : ((n == 0) ≡ false) × (s.next n ≡ old) = Knows-at s t (push_cas n old) xs h at in
    let own : owner (s.threads t) ≡ n = ap owner at in
    (
      n ∷ xs,
      refl,
      head_push-Holds (goes s t idle) n xs
          (goes-Holds s t idle xs h (free-Joins s t idle xs h refl refl tt)) k.0
          (rw (sym own) (h.owned_bounded t)) (k.1 ∙ sym eq) (no_owner s t n xs h k.0 own),
    )

pop_succeeds-After :
    (s : State) (t old new : ℕ) (xs : List ℕ)
    → Holds s xs
    → s.threads t ≡ pop_cas old new
    → s.head ≡ old
    → After (popped old) xs (goes (record s { head = new }) t idle)
unfolding After effect goes Knows IsChain
pop_succeeds-After s t old new [] h at eq =
    let k : ((old == 0) ≡ false) × (s.next old ≡ new) = Knows-at s t (pop_cas old new) [] h at in
    absurd (ground (arith, k.0, eq, h.chain))
pop_succeeds-After s t old new (x ∷ xs) h at eq =
    let k : ((old == 0) ≡ false) × (s.next old ≡ new) =
      Knows-at s t (pop_cas old new) (x ∷ xs) h at in
    let top : x ≡ old = sym h.chain.0 ∙ eq in
    let same : (x == old) ≡ true = ground (arith, top) in
    (
      xs,
      rw same refl,
      head_pop-Holds (goes s t idle) new x xs
          (goes-Holds s t idle (x ∷ xs) h (free-Joins s t idle (x ∷ xs) h refl refl tt))
          (rw top k.1),
    )

pop_finds_none-After :
    (s : State) (t : ℕ) (xs : List ℕ)
    → Holds s xs
    → s.head ≡ 0
    → After found_empty xs (goes s t idle)
unfolding After effect IsChain Knows
pop_finds_none-After s t [] h eq =
    ([], refl, goes-Holds s t idle [] h (free-Joins s t idle [] h refl refl tt))
pop_finds_none-After s t (x ∷ xs) h eq = absurd (ground (arith, eq, h.chain.0, h.chain.1))

push_begins-After :
    (s : State) (t : ℕ) (xs : List ℕ)
    → Holds s xs
    → After silent xs (goes (alloc_node s) t (push_load (s.alloc_idx + 1)))
unfolding Knows set_link
push_begins-After s t xs h = quiet (
    goes-Holds (alloc_node s) t (push_load (s.alloc_idx + 1)) xs (alloc_node-Holds s xs h) (record {
      owned = fresh_off s xs h;
      owned_bounded = omega arith;
      owned_apart = λ u _ _. ground (arith, h.owned_bounded u);
      read_bounded = omega arith;
      read_apart = λ u _ reads. absurd (ground (arith, reads));
      read_self = λ reads. absurd (ground (arith, reads));
      others_read = λ u _ _. ground (arith, h.read_bounded u);
      known = ground arith;
    }))

same_number : (a b : ℕ) → (a == b) ≡ true → a ≡ b
same_number a b e = ground (arith, e)

link-Knows :
    (s : State) (t n old : ℕ) (xs : List ℕ)
    → Holds s xs
    → s.threads t ≡ push_link n old
    → Knows (set_link s n old).next (push_link n old)
unfolding Knows
link-Knows s t n old xs h at = Knows-at s t (push_link n old) xs h at

-- The write of the link of its node by one thread leaves what every thread knows.
links_known :
    (s : State) (t n old : ℕ) (xs : List ℕ)
    → Holds s xs
    → s.threads t ≡ push_link n old
    → (u : ℕ) → Knows (set_link s n old).next (s.threads u)
links_known s t n old xs h at u = elim (Bool-cases (u == t)) [
  | inl here ↦ rw (same_number u t here, at) (link-Knows s t n old xs h at)
  | inr other ↦
      let own : owner (s.threads t) ≡ n = ap owner at in
      set_link-Knows s n old (s.threads u) (λ owns. rw (sym own) (h.owned_apart u t other owns))
        (λ reads. rw (sym own) (h.read_apart u t reads)) (h.known u)
]

push_links-After :
    (s : State) (t n old : ℕ) (xs : List ℕ)
    → Holds s xs
    → s.threads t ≡ push_link n old
    → After silent xs (goes (set_link s n old) t (push_cas n old))
unfolding Knows set_link
push_links-After s t n old xs h at =
    let real : (n == 0) ≡ false = Knows-at s t (push_link n old) xs h at in
    let own : owner (s.threads t) ≡ n = ap owner at in
    let linked =
      set_link-Holds s n old xs h (rw (sym own) (h.owned t)) (links_known s t n old xs h at) in
    quiet (
      goes-Holds (set_link s n old) t (push_cas n old) xs linked (
        pushing-Joins (set_link s n old) t (push_cas n old) xs linked own refl
          (real, ground arith)))

-- A node that a thread read as the head is not one that a thread is pushing.
read_stays :
    (s : State) (t old : ℕ) (xs : List ℕ)
    → Holds s xs
    → read_head (s.threads t) ≡ old
    → (old == 0) ≡ false
    → (u : ℕ) → (old == owner (s.threads u)) ≡ false
read_stays s t old xs h read real u = rw (sym read) (h.read_apart t u (ground (arith, read, real)))

-- Each step of any thread keeps the invariant, and changes the stack as its event says.
Step-After : (s u : State) (e : Outcome) (xs : List ℕ) → Holds s xs → Step s e u → After e xs u
unfolding Knows
Step-After s _ _ xs h (push_begins t at) = push_begins-After s t xs h
Step-After s _ _ xs h (push_loads t n at) = quiet (
    goes-Holds s t (push_link n s.head) xs h (
      pushing-Joins s t (push_link n s.head) xs h (ap owner at) refl
        (Knows-at s t (push_load n) xs h at)))
Step-After s _ _ xs h (push_links t n old at) = push_links-After s t n old xs h at
Step-After s _ _ xs h (push_succeeds t n old at eq) = push_succeeds-After s t n old xs h at eq
Step-After s _ _ xs h (push_retries t n old at) = quiet (
    goes-Holds s t (push_load n) xs h (
      pushing-Joins s t (push_load n) xs h (ap owner at) refl
        (Knows-at s t (push_cas n old) xs h at).0))
Step-After s _ _ xs h (pop_begins t at) =
    quiet (goes-Holds s t pop_load xs h (free-Joins s t pop_load xs h refl refl tt))
Step-After s _ _ xs h (pop_finds_none t at eq) = pop_finds_none-After s t xs h eq
Step-After s _ _ xs h (pop_loads t at some_) =
    let on = head_on_stack s xs h some_ in
    quiet (
      goes-Holds s t (pop_next s.head) xs h (
        popping-Joins s t (pop_next s.head) xs h refl some_ (h.bounded s.head on)
          (on_stack_apart s s.head xs h on) some_))
Step-After s _ _ xs h (pop_reads t old at) =
    let real : (old == 0) ≡ false = Knows-at s t (pop_next old) xs h at in
    let read : read_head (s.threads t) ≡ old = ap read_head at in
    quiet (
      goes-Holds s t (pop_cas old (s.next old)) xs h (
        popping-Joins s t (pop_cas old (s.next old)) xs h refl real
          (rw (sym read) (h.read_bounded t)) (λ u. read_stays s t old xs h read real u)
          (real, refl)))
Step-After s _ _ xs h (pop_succeeds t old new at eq) = pop_succeeds-After s t old new xs h at eq
Step-After s _ _ xs h (pop_retries t old new at) =
    quiet (goes-Holds s t pop_load xs h (free-Joins s t pop_load xs h refl refl tt))

init-Holds : Holds lf_stack_init []
unfolding IsChain Knows lf_stack_init
init-Holds = record {
  chain = refl;
  bounded = λ c on. absurd (ground (arith, on));
  real = refl;
  owned = λ _. refl;
  owned_bounded = λ _. omega arith;
  owned_apart = λ _ _ _ owns. absurd (ground (arith, owns));
  read_bounded = λ _. omega arith;
  read_apart = λ _ _ reads. absurd (ground (arith, reads));
  known = λ _. tt;
}

-- However the steps of the threads are interleaved, the pushes and pops that succeed, taken in the order in
-- which they take effect, are a run of a list that starts empty: each node popped is the one then on top,
-- and a pop that finds nothing finds the list empty. The list that this run ends with is the one that the
-- nodes spell from the head on.
pub lf_stack_run-Holds :
    (es : List Outcome) (s : State)
    → Run_ lf_stack_init es s
    → (xs : List ℕ) × (replay es ≡ some xs) × Holds s xs
unfolding replay then_effect After
lf_stack_run-Holds _ _ start = ([], refl, init-Holds)
lf_stack_run-Holds _ s (then_ {es} {e} {u} r step) =
    let (xs, before, h) = lf_stack_run-Holds es u r in rw before (Step-After u s e xs h step)
