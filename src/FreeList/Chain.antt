-- ===== src/FreeList/Chain.antt =====
-- The free slots as a list.
use mathlib.Core.List.{Mem, mem-cons_self, mem-cons_of_mem}
use textbook_c_ds_deep.Prelude.{
  ℕ, ◌<◌, ◌≡◌, refl, ◌∙◌, Option, none, some, List, [], ◌∷◌, arith, length, set, length-set, ◌⊎◌,
  ◌==◌, true, false, Bool-cases, inl, inr,
}
use textbook_c_ds_deep.Run.{ok}
use textbook_c_ds_deep.Array.{at, at-set, load-ok}
use textbook_c_ds_deep.FreeList.{Cell, link, cell_default, next_of}

-- From `head` on the slots of `memory` are linked in the order of the list.
pub data Chain (memory : List Cell) : Option ℕ → List ℕ → Type 0 where
  ends : Chain memory none []
  slot :
      (i : ℕ) (next : Option ℕ) (xs : List ℕ)
      → i < length memory
      → at memory i ≡ link next
      → Chain memory next xs
      → Chain memory (some i) (i ∷ xs)

pub next_of-ok :
    (memory : List Cell) (i : ℕ) (next : Option ℕ)
    → i < length memory
    → at memory i ≡ link next
    → next_of memory i ≡ ok next
unfolding next_of
next_of-ok memory i next h e = rw (load-ok memory i h, e) refl

-- Writing a slot that is not linked leaves the links.
pub Chain-set :
    (memory : List Cell) (head : Option ℕ) (xs : List ℕ) (j : ℕ) (c : Cell)
    → Chain memory head xs
    → j < length memory
    → ¬ (Mem j xs)
    → Chain (set memory j c) head xs
Chain-set memory _ _ j c ends h out = ends
Chain-set memory _ _ j c (slot i next xs lt e rest) h out =
    let differs : (j == i) ≡ false = apart (Bool-cases (j == i)) in
    slot i next xs (rw (length-set memory j c) lt) (at-set memory j i c h ∙ rw differs e)
      (Chain-set memory next xs j c rest h (λ m. out (mem-cons_of_mem i m)))
  where
    apart : ((j == i) ≡ true) ⊎ ((j == i) ≡ false) → (j == i) ≡ false
    apart (inl same) = let e : j ≡ i = ground arith in absurd (out (rw e mem-cons_self))
    apart (inr other) = other

pub Chain-nil : (memory : List Cell) (head : Option ℕ) → Chain memory head [] → head ≡ none
Chain-nil memory _ ends = refl

pub Chain-cons :
    (memory : List Cell) (head : Option ℕ) (i : ℕ) (xs : List ℕ)
    → Chain memory head (i ∷ xs)
    → (next : Option ℕ) × (head ≡ some i)
      × (i < length memory)
      × (at memory i ≡ link next)
      × Chain memory next xs
Chain-cons memory _ _ _ (slot i next xs lt e rest) = (next, refl, lt, e, rest)
