-- ===== src/Links/Priority.antt =====
-- Insertion by priority.
use mathlib.Core.List.{append_assoc, append-nil}
use textbook_c_ds_deep.Prelude.{
  ℕ, zero, suc, ◌<◌, ◌≡◌, refl, sym, ◌∙◌, true, false, List, [], ◌∷◌, ◌++◌, arith, ◌==◌, ltb,
  if◌then◌else◌, length,
}
use textbook_c_ds_deep.Run.{Returns, branch, weaken}
use textbook_c_ds_deep.Links.{Links, Task, alive, next_of, insert_loop, task_list_insert_sorted}
use textbook_c_ds_deep.Links.Route
use textbook_c_ds_deep.Links.Route.{
  has, AllApart, Linked, Route, stop, step, has-append, apart_front, apart_back, apart-insert,
}
use textbook_c_ds_deep.Links.Insert.{
  IsList, IsNew, get_next-ok, get_prev-ok, list_add_between-Spliced, Spliced-Route,
  list_add_tail-IsList,
}

-- The tasks with `n` before the first one of lower priority.
unfoldable pub inserted : (ℕ → Task) → ℕ → List ℕ → List ℕ
inserted tasks n [] = n ∷ []
inserted tasks n (x ∷ xs) =
    let rest = inserted tasks n xs in
    if ltb (tasks x).priority (tasks n).priority then n ∷ x ∷ xs else x ∷ rest

module _ {g : Links} (tasks : ℕ → Task) {head n : ℕ} where
  -- The loop behind the tasks `front`, with `xs` left.
  insert_loop-IsList :
      (fuel : ℕ) {p pos : ℕ} (front xs : List ℕ)
      → length xs < fuel
      → IsList g head (front ++ xs)
      → IsNew g head (front ++ xs) n
      → Route g head front p
      → Route g p (xs ++ head ∷ []) head
      → next_of g p ≡ pos
      → Returns
          (λ h. IsList h head (front ++ inserted tasks n xs))
          (insert_loop fuel g tasks head n pos)
  unfolding insert_loop inserted AllApart
  insert_loop-IsList zero front xs enough is new before rest e = absurd (omega arith)
  insert_loop-IsList (suc fuel) {p} {pos} front [] enough is new before (step l rest) e =
      let at_head : (pos == head) ≡ true = ground (arith, e, l.forth) in
      rw at_head (rw (append-nil front) at (list_add_tail-IsList (front ++ []) is new))
  insert_loop-IsList (suc fuel) {p} {pos} front (x ∷ xs) enough is new before (step l rest) e =
      let here : pos ≡ x = sym e ∙ l.forth in
      let whole = append_assoc front (x ∷ xs) (head ∷ []) in
      let apart = rw whole at is.apart in
      let outside = rw whole at new.outside in
      let later = apart_back front (xs ++ head ∷ []) x apart in
      let not_head : (x == head) ≡ false = ground (arith, later, has-append x xs (head ∷ [])) in
      let pushed = append_assoc front (x ∷ []) xs in
      rw (here, not_head)
        (branch (ltb (tasks x).priority (tasks n).priority)
          (λ lower.
            rw (lower, get_prev-ok g x p l.to l.back)
              (weaken (list_add_between-Spliced g n p x new.ready l.from l.to) λ h s.
                let list : IsList h head (front ++ n ∷ x ∷ xs) = record {
                  ring = rw (append_assoc front (n ∷ x ∷ xs) (head ∷ [])) (
                      Spliced-Route before l rest apart new.ready outside
                        (ground (
                          arith,
                          has-append head front (x ∷ (xs ++ head ∷ [])),
                          has-append head xs (head ∷ []),
                        ))
                        s);
                  apart =
                      rw (append_assoc front (n ∷ x ∷ xs) (head ∷ []))
                        (apart-insert front (x ∷ (xs ++ head ∷ [])) n apart outside);
                } in
                list))
          (λ higher.
            rw (higher, get_next-ok g x _ l.to refl)
              (rw (append_assoc front (x ∷ []) (inserted tasks n xs)) at (
                insert_loop-IsList fuel (front ++ x ∷ []) xs (omega arith) (rw pushed is)
                  (rw pushed new) (Route.append before (step l stop)) rest refl))))

-- `task_list_insert_sorted` puts a new task before the first one of lower priority, or at the end,
-- and ends: one round more than there are tasks is enough.
pub task_list_insert_sorted-IsList :
    {g : Links} (tasks : ℕ → Task) {head n : ℕ} (xs : List ℕ)
    → IsList g head xs
    → IsNew g head xs n
    → Returns
        (λ h. IsList h head (inserted tasks n xs))
        (task_list_insert_sorted (suc (length xs)) g tasks head n)
unfolding task_list_insert_sorted
task_list_insert_sorted-IsList {g} tasks {head} {n} xs is new =
    rw (get_next-ok g head _ (alive_head xs is.ring) refl)
      (insert_loop-IsList tasks (suc (length xs)) [] xs (omega arith) is new stop is.ring refl)
  where
    alive_head : (xs : List ℕ) → Route g head (xs ++ head ∷ []) head → alive g head ≡ true
    alive_head [] (step l p) = l.from
    alive_head (x ∷ xs) (step l p) = l.from
