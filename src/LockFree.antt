-- ===== src/LockFree.antt =====
-- lockfree_stack.c: the stack of Treiber. Threads take single steps in any order; a step is one atomic
-- access, or one read or write of a node. A node is its index in the pool plus 1; NULL is 0.
pub mod Keeps
pub mod Memory
pub mod Moves
pub mod Linear
use textbook_c_ds_deep.Prelude.{ℕ, ◌+◌, ◌≡◌, Bool, true, false, List, [], ◌∷◌, ◌==◌, if◌then◌else◌}

-- Where a thread stands: in `lf_stack_push` of a node, or in `lf_stack_pop`, with what it has read.
pub data Local : Type 0 where
  idle : Local
  push_load : ℕ → Local
  push_link : (node old_head : ℕ) → Local
  push_cas : (node old_head : ℕ) → Local
  pop_load : Local
  pop_next : (old_head : ℕ) → Local
  pop_cas : (old_head new_head : ℕ) → Local

pub record State : Type 0 where
  pub head : ℕ
  pub next : ℕ → ℕ
  pub alloc_idx : ℕ
  pub threads : ℕ → Local

-- Thread `t` goes to `l`.
unfoldable pub goes : State → ℕ → Local → State
goes s t l = record s { threads = λ u. if u == t then l else s.threads u }

-- `p->next = q`
unfoldable pub set_link : State → ℕ → ℕ → State
set_link s p q = record s { next = λ c. if c == p then q else s.next c }

-- The node after the last one given, with its link set to NULL; its value is not modelled. The write to
-- the new node is one step with the count, since no other thread reads the node yet.
abbrev pub alloc_node : State → State
alloc_node s = set_link (record s { alloc_idx = s.alloc_idx + 1 }) (s.alloc_idx + 1) 0

-- `atomic_load(&s->head) == NULL`
unfoldable pub lf_stack_is_empty : State → Bool
lf_stack_is_empty s = s.head == 0

-- What a step shows: nothing, a node pushed, a node popped, or an empty stack found.
pub data Outcome : Type 0 where
  silent : Outcome
  pushed : ℕ → Outcome
  popped : ℕ → Outcome
  found_empty : Outcome

pub data Step (s : State) : Outcome → State → Type 0 where
  -- `alloc_node` gives the next node of the pool, and the push of it begins: as in the program, only new
  -- nodes are pushed.
  push_begins :
      (t : ℕ)
      → s.threads t ≡ idle
      → Step s silent (goes (alloc_node s) t (push_load (s.alloc_idx + 1)))
  -- `old_head = atomic_load(&s->head)`
  push_loads : (t n : ℕ) → s.threads t ≡ push_load n → Step s silent (goes s t (push_link n s.head))
  -- `node->next = old_head`
  push_links :
      (t n old : ℕ)
      → s.threads t ≡ push_link n old
      → Step s silent (goes (set_link s n old) t (push_cas n old))
  -- The exchange succeeds only where the head is the old one.
  push_succeeds :
      (t n old : ℕ)
      → s.threads t ≡ push_cas n old
      → s.head ≡ old
      → Step s (pushed n) (goes (record s { head = n }) t idle)
  -- It fails otherwise, and may also fail without a reason.
  push_retries :
      (t n old : ℕ) → s.threads t ≡ push_cas n old → Step s silent (goes s t (push_load n))
  pop_begins : (t : ℕ) → s.threads t ≡ idle → Step s silent (goes s t pop_load)
  pop_finds_none :
      (t : ℕ) → s.threads t ≡ pop_load → s.head ≡ 0 → Step s found_empty (goes s t idle)
  pop_loads :
      (t : ℕ)
      → s.threads t ≡ pop_load
      → (s.head == 0) ≡ false
      → Step s silent (goes s t (pop_next s.head))
  -- `new_head = old_head->next`
  pop_reads :
      (t old : ℕ) → s.threads t ≡ pop_next old → Step s silent (goes s t (pop_cas old (s.next old)))
  pop_succeeds :
      (t old new : ℕ)
      → s.threads t ≡ pop_cas old new
      → s.head ≡ old
      → Step s (popped old) (goes (record s { head = new }) t idle)
  pop_retries : (t old new : ℕ) → s.threads t ≡ pop_cas old new → Step s silent (goes s t pop_load)

-- `lf_stack_init`, before any thread runs.
unfoldable pub lf_stack_init : State
lf_stack_init = record { head = 0; next = λ c. 0; alloc_idx = 0; threads = λ t. idle }

-- The events of a run, and where it leads.
pub data Run_ (s : State) : List Outcome → State → Type 0 where
  start : Run_ s [] s
  then_ :
      {es : List Outcome} {e : Outcome} {u v : State} → Run_ s es u → Step u e v → Run_ s (e ∷ es) v
