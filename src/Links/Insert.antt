-- ===== src/Links/Insert.antt =====
-- Insertion between two neighbours.
use mathlib.Core.List.{append_assoc}
use textbook_c_ds_deep.Prelude.{
  ℕ, ◌≡◌, refl, ◌∙◌, Bool, true, false, Option, none, some, List, [], ◌∷◌, ◌++◌, arith, ◌==◌,
  if◌then◌else◌, Bool-cases, inl, inr,
}
use textbook_c_ds_deep.Run.{ok, Returns, returns, bind, weaken}
use textbook_c_ds_deep.Links.{
  ListHead, Links, alive, next_of, prev_of, overwrite, set_next, set_prev, get_next, get_prev,
  list_add_between, list_add, list_add_tail,
}
use textbook_c_ds_deep.Links.Route
use textbook_c_ds_deep.Links.Route.{
  has, AllApart, Linked, Route, stop, step, has-append, apart_front, apart_back, apart-insert,
}

-- One write.
pub record WroteNext (g : Links) (a v : ℕ) (h : Links) : Type 0 where
  pub lives : (c : ℕ) → alive h c ≡ alive g c
  pub ahead : (c : ℕ) → next_of h c ≡ (if c == a then v else next_of g c)
  pub behind : (c : ℕ) → prev_of h c ≡ prev_of g c

pub record WrotePrev (g : Links) (a v : ℕ) (h : Links) : Type 0 where
  pub lives : (c : ℕ) → alive h c ≡ alive g c
  pub ahead : (c : ℕ) → next_of h c ≡ next_of g c
  pub behind : (c : ℕ) → prev_of h c ≡ (if c == a then v else prev_of g c)

-- What is read from one of two places.
pick {ℓ} :
    {A : Type ℓ} (f : Option ListHead → A) (b : Bool) (l : ListHead) (o : Option ListHead)
    → f (if b then some l else o) ≡ (if b then f (some l) else f o)
pick f true l o = refl
pick f false l o = refl

module _ (g : Links) (a : ℕ) (l : ListHead) (ha : alive g a ≡ true) where
  alive-overwrite : (c : ℕ) → alive (overwrite g a l) c ≡ alive g c
  unfolding overwrite
  alive-overwrite c =
      pick (λ o. elim o [ none ↦ false | some m ↦ true ]) (c == a) l (g c)
      ∙ elim (Bool-cases (c == a)) [
        | inl same ↦ let e : c ≡ a = ground arith in rw (same, e, ha) refl
        | inr other ↦ rw other refl
      ]

  next_of-overwrite :
      (c : ℕ) → next_of (overwrite g a l) c ≡ (if c == a then l.next else next_of g c)
  unfolding overwrite
  next_of-overwrite c = pick (λ o. elim o [ none ↦ 0 | some m ↦ m.next ]) (c == a) l (g c)

  prev_of-overwrite :
      (c : ℕ) → prev_of (overwrite g a l) c ≡ (if c == a then l.prev else prev_of g c)
  unfolding overwrite
  prev_of-overwrite c = pick (λ o. elim o [ none ↦ 0 | some m ↦ m.prev ]) (c == a) l (g c)

-- A write of what is there.
same_there : (f : ℕ → ℕ) (a c : ℕ) → (if c == a then f a else f c) ≡ f c
same_there f a c = elim (Bool-cases (c == a)) [
  | inl same ↦ let e : c ≡ a = ground arith in rw (same, e) refl
  | inr other ↦ rw other refl
]

module _ (g : Links) (a v : ℕ) (ha : alive g a ≡ true) where
  pub set_next-WroteNext : Returns (WroteNext g a v) (set_next g a v)
  unfolding set_next
  set_next-WroteNext =
      let l : ListHead = record { prev = prev_of g a; next = v } in
      rw ha (
        returns (record {
          lives = alive-overwrite g a l ha;
          ahead = next_of-overwrite g a l ha;
          behind = λ c. prev_of-overwrite g a l ha c ∙ same_there (prev_of g) a c;
        }))

  pub set_prev-WrotePrev : Returns (WrotePrev g a v) (set_prev g a v)
  unfolding set_prev
  set_prev-WrotePrev =
      let l : ListHead = record { prev = v; next = next_of g a } in
      rw ha (
        returns (record {
          lives = alive-overwrite g a l ha;
          ahead = λ c. next_of-overwrite g a l ha c ∙ same_there (next_of g) a c;
          behind = prev_of-overwrite g a l ha;
        }))

pub get_next-ok : (g : Links) (a b : ℕ) → alive g a ≡ true → next_of g a ≡ b → get_next g a ≡ ok b
unfolding get_next
get_next-ok g a b h e = rw (h, e) refl

pub get_prev-ok : (g : Links) (a b : ℕ) → alive g a ≡ true → prev_of g a ≡ b → get_prev g a ≡ ok b
unfolding get_prev
get_prev-ok g a b h e = rw (h, e) refl

-- What an insertion of `n` between `p` and `q` does to every link.
pub record Spliced (g : Links) (n p q : ℕ) (h : Links) : Type 0 where
  pub lives : (c : ℕ) → alive h c ≡ alive g c
  pub ahead : (c : ℕ) → next_of h c ≡ (if c == p then n else if c == n then q else next_of g c)
  pub behind : (c : ℕ) → prev_of h c ≡ (if c == n then p else if c == q then n else prev_of g c)

pub list_add_between-Spliced :
    (g : Links) (n p q : ℕ)
    → alive g n ≡ true
    → alive g p ≡ true
    → alive g q ≡ true
    → Returns (Spliced g n p q) (list_add_between g n p q)
unfolding list_add_between
list_add_between-Spliced g n p q hn hp hq = bind (set_prev-WrotePrev g q n hq) λ a ra.
    bind (set_next-WroteNext a n q (ra.lives n ∙ hn)) λ b rb.
      bind (set_prev-WrotePrev b n p (rb.lives n ∙ ra.lives n ∙ hn)) λ c rc.
        weaken (set_next-WroteNext c p n (rc.lives p ∙ rb.lives p ∙ ra.lives p ∙ hp)) λ d rd.
          record {
            lives = λ x. rd.lives x ∙ rc.lives x ∙ rb.lives x ∙ ra.lives x;
            ahead = λ x. rw (rd.ahead, rc.ahead, rb.ahead, ra.ahead) refl;
            behind = λ x. rw (rd.behind, rc.behind, rb.behind, ra.behind) refl;
          }

-- The members of the list with the sentinel `head`, first to last, and the sentinel last.
pub record IsList (g : Links) (head : ℕ) (xs : List ℕ) : Type 0 where
  pub ring : Route g head (xs ++ head ∷ []) head
  pub apart : AllApart (xs ++ head ∷ [])

-- `n` is a list head that is neither the sentinel nor a member.
pub record IsNew (g : Links) (head : ℕ) (xs : List ℕ) (n : ℕ) : Type 0 where
  pub ready : alive g n ≡ true
  pub outside : has n (xs ++ head ∷ []) ≡ false

-- The two halves of a ring, at the link between `p` and `q`, with `n` inserted there.
pub Spliced-Route :
    {g h : Links} {head n p q : ℕ} {xs ys : List ℕ}
    → Route g head xs p
    → Linked g p q
    → Route g q ys head
    → AllApart (xs ++ q ∷ ys)
    → alive g n ≡ true
    → has n (xs ++ q ∷ ys) ≡ false
    → has head (xs ++ q ∷ ys) ≡ true
    → Spliced g n p q h
    → Route h head (xs ++ n ∷ q ∷ ys) head
Spliced-Route {g} {h} {head} {n} {p} {q} {xs} {ys} front l back apart ready outside root s =
    let before = apart_front xs ys q apart in
    let behind = apart_back xs ys q apart in
    let all = λ (c : ℕ). has-append c xs (q ∷ ys) in
    let ending = Route.end_mem front in
    Route.append
      (Route.frame front (λ c a i. s.lives c ∙ a)
        (λ c d m i j. grind (arith, s.ahead c, m.forth, l.forth, before, all c, all n))
        (λ d i. grind (arith, s.behind d, before, all d, all n)))
      (step
        (record {
          from = s.lives p ∙ l.from;
          to = s.lives n ∙ ready;
          forth = grind (arith, s.ahead p);
          back = grind (arith, s.behind n);
        })
        (step
          (record {
            from = s.lives n ∙ ready;
            to = s.lives q ∙ l.to;
            forth = grind (arith, s.ahead n, ending, all p, all n);
            back = grind (arith, s.behind q, all q, all n);
          })
          (Route.frame back (λ c a i. s.lives c ∙ a)
            (λ c d m i j. grind (arith, s.ahead c, m.forth, l.forth, behind, all c, all n))
            (λ d i. grind (arith, s.behind d, behind, all d, all n)))))

module _ {g : Links} {head n : ℕ} where
  -- `list_add` puts the new member before all others.
  pub list_add-IsList :
      (xs : List ℕ)
      → IsList g head xs
      → IsNew g head xs n
      → Returns (λ h. IsList h head (n ∷ xs)) (list_add g n head)
  unfolding list_add
  list_add-IsList xs is new = by_first xs is.ring is.apart new.outside
    where
      by_first :
          (xs : List ℕ)
          → Route g head (xs ++ head ∷ []) head
          → AllApart (xs ++ head ∷ [])
          → has n (xs ++ head ∷ []) ≡ false
          → Returns (λ h. IsList h head (n ∷ xs)) (list_add g n head)
      by_first [] (step l p) apart outside = rw (get_next-ok g head head l.from l.forth) (
          weaken (list_add_between-Spliced g n head head new.ready l.from l.to) λ h s. record {
            ring = Spliced-Route stop l p apart new.ready outside (ground arith) s;
            apart = apart-insert [] (head ∷ []) n apart outside;
          })
      by_first (x ∷ xs) (step l p) apart outside = rw (get_next-ok g head x l.from l.forth) (
          weaken (list_add_between-Spliced g n head x new.ready l.from l.to) λ h s. record {
            ring =
                Spliced-Route stop l p apart new.ready outside
                  (ground (arith, has-append head xs (head ∷ []))) s;
            apart = apart-insert [] (x ∷ xs ++ head ∷ []) n apart outside;
          })

  -- `list_add_tail` puts it behind all others.
  pub list_add_tail-IsList :
      (xs : List ℕ)
      → IsList g head xs
      → IsNew g head xs n
      → Returns (λ h. IsList h head (xs ++ n ∷ [])) (list_add_tail g n head)
  unfolding list_add_tail
  list_add_tail-IsList xs is new =
      let (p, front, l, e) = Route.last_step xs head is.ring in
      rw (get_prev-ok g head p l.to l.back) (
        weaken (list_add_between-Spliced g n p head new.ready l.from l.to) λ h s. record {
          ring = rw append_assoc (
              Spliced-Route front l stop is.apart new.ready new.outside
                (ground (arith, has-append head xs (head ∷ []))) s);
          apart = rw append_assoc (apart-insert xs (head ∷ []) n is.apart new.outside);
        })
