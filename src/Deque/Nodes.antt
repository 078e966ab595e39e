-- ===== src/Deque/Nodes.antt =====
-- New and released nodes.
use textbook_c_ds_deep.Prelude.{
  ℕ, ◌≡◌, refl, sym, ◌∙◌, true, false, none, List, [], ◌∷◌, ◌++◌, arith, ◌==◌, Bool-cases, inl, inr,
}
use textbook_c_ds_deep.Run.{Returns, bind, weaken}
use textbook_c_ds_deep.Links.{ListHead, Links, alive, next_of, prev_of, overwrite}
use textbook_c_ds_deep.Links.Route
use textbook_c_ds_deep.Links.Route.{has, Linked, Route, stop, step, has-append}
use textbook_c_ds_deep.Links.Insert.{IsList, IsNew, Spliced, set_next-WroteNext, set_prev-WrotePrev}
use textbook_c_ds_deep.Deque.{link_between}

pub path_alive :
    {g : Links} {a b : ℕ} {xs : List ℕ} (c : ℕ)
    → Route g a xs b
    → has c xs ≡ true
    → alive g c ≡ true
path_alive c stop i = absurd cc
path_alive {g} c (step {b} l p) i = elim (Bool-cases (c == b)) [
  | inl same ↦ let e : c ≡ b = ground arith in rw e l.to
  | inr other ↦ path_alive c p (ground arith)
]

-- What lies at other addresses is not changed by a write at `n`.
module _ (g : Links) (n : ℕ) (l : ListHead) (c : ℕ) (other : (c == n) ≡ false) where
  pub alive_other : alive (overwrite g n l) c ≡ alive g c
  unfolding overwrite
  alive_other = rw (alive, other) refl

  pub next_other : next_of (overwrite g n l) c ≡ next_of g c
  unfolding overwrite
  next_other = rw (next_of, other) refl

  pub prev_other : prev_of (overwrite g n l) c ≡ prev_of g c
  unfolding overwrite
  prev_other = rw (prev_of, other) refl

pub link_between-Spliced :
    (g : Links) (n p q : ℕ)
    → alive g n ≡ true
    → alive g p ≡ true
    → alive g q ≡ true
    → (p == n) ≡ false
    → (q == n) ≡ false
    → Returns (Spliced g n p q) (link_between g n p q)
unfolding link_between
link_between-Spliced g n p q hn hp hq pn qn = bind (set_prev-WrotePrev g n p hn) λ a ra.
    bind (set_next-WroteNext a n q (ra.lives n ∙ hn)) λ b rb.
      bind (set_next-WroteNext b p n (rb.lives p ∙ ra.lives p ∙ hp)) λ c rc.
        weaken (set_prev-WrotePrev c q n (rc.lives q ∙ rb.lives q ∙ ra.lives q ∙ hq)) λ d rd.
          record {
            lives = λ x. rd.lives x ∙ rc.lives x ∙ rb.lives x ∙ ra.lives x;
            ahead = λ x. rw (rd.ahead, rc.ahead, rb.ahead, ra.ahead) refl;
            behind = λ x. ground (arith, rd.behind x, rc.behind x, rb.behind x, ra.behind x, qn);
          }

-- Membership tells addresses apart.
pub differs :
    (n : ℕ) (ring : List ℕ) (c : ℕ) → has c ring ≡ true → has n ring ≡ false → (c == n) ≡ false
differs n ring c i out = elim (Bool-cases (c == n)) [
  | inl same ↦
      let e : c ≡ n = ground arith in let bad : false ≡ true = sym out ∙ rw e at i in absurd cc
  | inr other ↦ other
]

-- A new node changes no list, and it is on none.
pub overwrite-IsList :
    {g : Links} {head : ℕ} {xs : List ℕ} (n : ℕ) (l : ListHead)
    → g n ≡ none
    → IsList g head xs
    → IsList (overwrite g n l) head xs × IsNew (overwrite g n l) head xs n
unfolding overwrite
overwrite-IsList {g} {head} {xs} n l free is =
    let outside : has n (xs ++ head ∷ []) ≡ false = elim (Bool-cases (has n (xs ++ head ∷ []))) [
      | inl inside ↦
          let bad : false ≡ true = rw (free, alive) at (path_alive n is.ring inside) in absurd cc
      | inr out ↦ out
    ] in
    let apart =
      λ (c : ℕ) (i : has c (xs ++ head ∷ []) ≡ true). differs n (xs ++ head ∷ []) c i outside in
    let root : has head (xs ++ head ∷ []) ≡ true = ground (arith, has-append head xs (head ∷ [])) in
    (
      record {
        ring =
            Route.frame is.ring (λ c a i. alive_other g n l c (apart c (ground (arith, root))) ∙ a)
              (λ c d m i j. next_other g n l c (apart c (ground (arith, root))) ∙ m.forth)
              (λ d i. prev_other g n l d (apart d i));
        apart = is.apart;
      },
      record {
        ready = let same : (n == n) ≡ true = ground arith in rw (alive, same) refl;
        outside = outside;
      },
    )
