-- ===== src/Deque/Ends.antt =====
-- The deque against the list of its data.
use native.Mathlib.Nat.{mod-eq_of_lt}
use mathlib.Core.List.{append_assoc, append-nil}
use textbook_c_ds_deep.Prelude.{
  ℕ, suc, ◌+◌, ◌^◌, ◌<◌, ◌≡◌, refl, sym, ap, ◌∙◌, true, false, none, some, List, [], ◌∷◌, ◌++◌,
  arith, ◌==◌, if◌then◌else◌, length, length-append, inc64,
}
use textbook_c_ds_deep.Run.{Returns, returns, bind, weaken}
use textbook_c_ds_deep.Links.{Links, alive, next_of, overwrite}
use textbook_c_ds_deep.Links.Route
use textbook_c_ds_deep.Links.Route.{
  has, AllApart, Linked, Route, stop, step, has-append, apart_front, apart_back, apart-insert,
  apart-remove,
}
use textbook_c_ds_deep.Links.Insert.{IsList, IsNew, Spliced-Route, get_next-ok, get_prev-ok}
use textbook_c_ds_deep.Deque.{
  Deque, dnode_new, deque_insert_between, deque_push_front, deque_push_back,
}
use textbook_c_ds_deep.Deque.Nodes.{
  path_alive, alive_other, next_other, prev_other, link_between-Spliced, overwrite-IsList, differs,
}

-- The data of some nodes.
abbrev pub values : (ℕ → ℕ) → List ℕ → List ℕ
values f [] = []
values f (x ∷ xs) = f x ∷ values f xs

-- The deque has the nodes `xs`, and no node lies at NULL.
pub record HasNodes (dq : Deque) (xs : List ℕ) : Type 0 where
  pub list : IsList dq.links dq.sentinel xs
  pub size : dq.size ≡ length xs
  pub null : alive dq.links 0 ≡ false

-- The deque holds the data `vs`, first to last.
abbrev pub Holds : Deque → List ℕ → Type 0
Holds dq vs = (xs : List ℕ) × HasNodes dq xs × (values dq.data_ xs ≡ vs)

pub values-append : (f : ℕ → ℕ) (xs ys : List ℕ) → values f (xs ++ ys) ≡ values f xs ++ values f ys
values-append f [] ys = refl
values-append f (x ∷ xs) ys = ap (λ t. f x ∷ t) (values-append f xs ys)

values_new :
    (f : ℕ → ℕ) (n d : ℕ) (xs : List ℕ)
    → has n xs ≡ false
    → values (λ c. if c == n then d else f c) xs ≡ values f xs
values_new f n d [] out = refl
values_new f n d (x ∷ xs) out =
    let other : (x == n) ≡ false = ground (arith, out) in
    let rest = values_new f n d xs (ground (arith, out)) in rw (other, rest) refl

-- What an insertion between the nodes `xs` and `ys` leaves.
record Between (dq : Deque) (n d : ℕ) (xs ys : List ℕ) (e : Deque) : Type 0 where
  list : IsList e.links e.sentinel (xs ++ n ∷ ys)
  size : e.size ≡ inc64 dq.size
  null : alive e.links 0 ≡ false
  same : e.data_ ≡ (λ c. if c == n then d else dq.data_ c)

module _ {dq : Deque} {n : ℕ} (d : ℕ) where
  insert-Between :
      {p q : ℕ} (xs ys : List ℕ) {rest : List ℕ}
      → IsNew (overwrite dq.links n (record { prev = 0; next = 0 })) dq.sentinel (xs ++ ys) n
      → AllApart (xs ++ q ∷ rest)
      → q ∷ rest ≡ ys ++ dq.sentinel ∷ []
      → Route (overwrite dq.links n (record { prev = 0; next = 0 })) dq.sentinel xs p
      → Linked (overwrite dq.links n (record { prev = 0; next = 0 })) p q
      → Route (overwrite dq.links n (record { prev = 0; next = 0 })) q rest dq.sentinel
      → (n == 0) ≡ false
      → alive dq.links 0 ≡ false
      → Returns (Between dq n d xs ys) (deque_insert_between (some n) dq d p q)
  unfolding deque_insert_between dnode_new
  insert-Between {p} {q} xs ys {rest} new apart e front l back real null =
      let same : xs ++ q ∷ rest ≡ xs ++ ys ++ dq.sentinel ∷ [] =
        ap (λ t. xs ++ t) e ∙ sym (append_assoc xs ys (dq.sentinel ∷ [])) in
      let outside : has n (xs ++ q ∷ rest) ≡ false = rw same new.outside in
      let total = ap (λ t. xs ++ n ∷ t) e ∙ sym (append_assoc xs (n ∷ ys) (dq.sentinel ∷ [])) in
      let all = λ (c : ℕ). has-append c xs (q ∷ rest) in
      let root : has dq.sentinel (xs ++ q ∷ rest) ≡ true =
        rw same (ground (arith, has-append dq.sentinel (xs ++ ys) (dq.sentinel ∷ []))) in
      let p_in : has p (xs ++ q ∷ rest) ≡ true = grind (arith, Route.end_mem front, all p, root) in
      let q_in : has q (xs ++ q ∷ rest) ≡ true = grind (arith, all q) in
      bind
        (link_between-Spliced (overwrite dq.links n (record { prev = 0; next = 0 })) n p q new.ready
          l.from l.to (differs n _ p p_in outside) (differs n _ q q_in outside))
        λ links s. returns (record {
          list = record {
            ring = rw total at (Spliced-Route front l back apart new.ready outside root s);
            apart = rw total at (apart-insert xs (q ∷ rest) n apart outside);
          };
          size = refl;
          null =
              s.lives 0
              ∙ alive_other dq.links n (record { prev = 0; next = 0 }) 0 (ground (arith, real))
              ∙ null;
          same = refl;
        })

  module _ (xs : List ℕ) (h : HasNodes dq xs) (free : dq.links n ≡ none)
      (real : (n == 0) ≡ false) where
    abbrev written : Links
    written = overwrite dq.links n (record { prev = 0; next = 0 })

    push_back-Between : Returns (Between dq n d xs []) (deque_push_back (some n) dq d)
    unfolding deque_push_back
    push_back-Between =
        let (is, new) = overwrite-IsList {xs = xs} n (record { prev = 0; next = 0 }) free h.list in
        let (p, front, l, e) = Route.last_step xs dq.sentinel is.ring in
        let (p', front', l', e') = Route.last_step xs dq.sentinel h.list.ring in
        let same =
          prev_other dq.links n (record { prev = 0; next = 0 }) dq.sentinel
            (differs n _ dq.sentinel (ground (arith, has-append dq.sentinel xs (dq.sentinel ∷ [])))
              new.outside) in
        rw (get_prev-ok dq.links dq.sentinel p l'.to (sym same ∙ l.back))
          (insert-Between xs [] (rw (append-nil xs) new) is.apart refl front l stop real h.null)

    push_front-Between : Returns (Between dq n d [] xs) (deque_push_front (some n) dq d)
    unfolding deque_push_front
    push_front-Between =
        let (is, new) = overwrite-IsList {xs = xs} n (record { prev = 0; next = 0 }) free h.list in
        let same =
          next_other dq.links n (record { prev = 0; next = 0 }) dq.sentinel
            (differs n _ dq.sentinel (ground (arith, has-append dq.sentinel xs (dq.sentinel ∷ [])))
              new.outside) in
        let lives =
          path_alive dq.sentinel h.list.ring
            (ground (arith, has-append dq.sentinel xs (dq.sentinel ∷ []))) in
        by_first xs is.ring is.apart new lives same
      where
        by_first :
            (ys : List ℕ)
            → Route written dq.sentinel (ys ++ dq.sentinel ∷ []) dq.sentinel
            → AllApart (ys ++ dq.sentinel ∷ [])
            → IsNew written dq.sentinel ys n
            → alive dq.links dq.sentinel ≡ true
            → next_of written dq.sentinel ≡ next_of dq.links dq.sentinel
            → Returns (Between dq n d [] ys) (deque_push_front (some n) dq d)
        by_first [] (step l rest) apart new lives same =
            rw (get_next-ok dq.links dq.sentinel dq.sentinel lives (sym same ∙ l.forth))
              (insert-Between [] [] new apart refl stop l rest real h.null)
        by_first (y ∷ ys) (step l rest) apart new lives same =
            rw (get_next-ok dq.links dq.sentinel y lives (sym same ∙ l.forth))
              (insert-Between [] (y ∷ ys) new apart refl stop l rest real h.null)

-- Room for one more node than the deque has.
abbrev pub Fits : List ℕ → Type 0
Fits vs = length vs + 1 < 2 ^ 64

pub length-values : (f : ℕ → ℕ) (xs : List ℕ) → length (values f xs) ≡ length xs
length-values f [] = refl
length-values f (x ∷ xs) = ap suc (length-values f xs)

-- A deque after an insertion.
Between-Holds :
    {dq e : Deque} {n d : ℕ} (xs ys : List ℕ)
    → HasNodes dq (xs ++ ys)
    → has n (xs ++ ys) ≡ false
    → Fits (xs ++ ys)
    → Between dq n d xs ys e
    → Holds e (values dq.data_ xs ++ d ∷ values dq.data_ ys)
Between-Holds {dq} {e} {n} {d} xs ys h out fits b = (
  xs ++ n ∷ ys,
  record {
    list = b.list;
    size =
        b.size
        ∙ mod-eq_of_lt (omega (arith, h.size, fits))
        ∙ omega (arith, h.size, length-append xs ys, length-append xs (n ∷ ys));
    null = b.null;
  },
  rw (b.same, values-append)
      (let front = values_new dq.data_ n d xs (ground (arith, out, has-append n xs ys)) in
        let back = values_new dq.data_ n d ys (ground (arith, out, has-append n xs ys)) in
        let self : (n == n) ≡ true = ground arith in rw (front, back, self) refl),
)

-- `deque_push_front` and `deque_push_back` with a new node that malloc finds: the datum stands before,
-- or behind, those that the deque held.
pub deque_push-Holds :
    (dq : Deque) (n d : ℕ) (vs : List ℕ)
    → Holds dq vs
    → dq.links n ≡ none
    → (n == 0) ≡ false
    → Fits vs
    → Returns (λ e. Holds e (d ∷ vs)) (deque_push_front (some n) dq d)
      × Returns (λ e. Holds e (vs ++ d ∷ [])) (deque_push_back (some n) dq d)
deque_push-Holds dq n d vs (xs, h, e) free real fits =
    let (is, new) = overwrite-IsList {xs = xs} n (record { prev = 0; next = 0 }) free h.list in
    let out : has n xs ≡ false = ground (arith, new.outside, has-append n xs (dq.sentinel ∷ [])) in
    let room : Fits xs = rw (sym (length-values dq.data_ xs), e) fits in
    let all = append-nil xs in
    (
      weaken (push_front-Between d xs h free real)
          λ f b. rw e at (Between-Holds [] xs h out room b),
      weaken (push_back-Between d xs h free real)
          λ f b. rw e at (Between-Holds xs [] (rw all h) (rw all out) (rw all room) b),
    )
