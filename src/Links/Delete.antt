-- ===== src/Links/Delete.antt =====
-- Removal of a member.
use mathlib.Core.List.{append_assoc}
use textbook_c_ds_deep.Prelude.{
  ℕ, ◌≡◌, refl, sym, ap, ◌∙◌, true, false, List, [], ◌∷◌, ◌++◌, arith, ◌==◌, if◌then◌else◌,
}
use textbook_c_ds_deep.Run.{Returns, bind, weaken}
use textbook_c_ds_deep.Links.{Links, alive, next_of, prev_of, bypass, list_del, list_move_tail}
use textbook_c_ds_deep.Links.Route
use textbook_c_ds_deep.Links.Route.{
  has, AllApart, Linked, Route, stop, step, has-append, apart_front, apart_back, apart-remove,
}
use textbook_c_ds_deep.Links.Insert.{
  IsList, IsNew, get_next-ok, get_prev-ok, set_next-WroteNext, set_prev-WrotePrev,
  list_add_tail-IsList,
}

-- What it does to every link that `n`, between `p` and `q`, is bypassed.
pub record Bypassed (g : Links) (n p q : ℕ) (h : Links) : Type 0 where
  pub lives : (c : ℕ) → alive h c ≡ alive g c
  pub ahead : (c : ℕ) → next_of h c ≡ (if c == p then q else next_of g c)
  pub behind : (c : ℕ) → prev_of h c ≡ (if c == q then p else prev_of g c)

pub bypass-Bypassed :
    (g : Links) (n p q : ℕ)
    → Linked g p n
    → Linked g n q
    → (n == p) ≡ false
    → Returns (Bypassed g n p q) (bypass g n)
unfolding bypass
bypass-Bypassed g n p q before after other =
    rw (get_prev-ok g n p after.from before.back, get_next-ok g n q after.from after.forth)
      (bind (set_next-WroteNext g p q before.from) λ a ra.
        let next : next_of a n ≡ q = grind (arith, ra.ahead n, after.forth) in
        let prev : prev_of a n ≡ p = ra.behind n ∙ before.back in
        let lives : alive a n ≡ true = ra.lives n ∙ after.from in
        rw (get_next-ok a n q lives next, get_prev-ok a n p lives prev)
          (weaken (set_prev-WrotePrev a q p (ra.lives q ∙ after.to)) λ h rh. record {
            lives = λ c. rh.lives c ∙ ra.lives c;
            ahead = λ c. rh.ahead c ∙ ra.ahead c;
            behind = λ c. rw (rh.behind, ra.behind) refl;
          }))

-- The halves of a ring on both sides of `n`, joined.
pub Bypassed-Route :
    {g h : Links} {head n p q : ℕ} {xs ys : List ℕ}
    → Route g head xs p
    → Linked g p n
    → Linked g n q
    → Route g q ys head
    → AllApart (xs ++ n ∷ q ∷ ys)
    → has head (xs ++ q ∷ ys) ≡ true
    → ((c : ℕ) → alive g c ≡ true → has c (xs ++ q ∷ ys) ≡ true → alive h c ≡ true)
    → ((c : ℕ) → has c (xs ++ q ∷ ys) ≡ true → next_of h c ≡ (if c == p then q else next_of g c))
    → ((c : ℕ) → has c (xs ++ q ∷ ys) ≡ true → prev_of h c ≡ (if c == q then p else prev_of g c))
    → Route h head (xs ++ q ∷ ys) head
Bypassed-Route {g} {h} {head} {n} {p} {q} {xs} {ys} front l m back apart root lives ahead behind =
    let whole = apart-remove xs (q ∷ ys) n apart in
    let not_front = apart_front xs ys q whole in
    let not_back = apart_back xs ys q whole in
    let n_front = apart_front xs (q ∷ ys) n apart in
    let n_back = apart_back xs (q ∷ ys) n apart in
    let all = λ (c : ℕ). has-append c xs (q ∷ ys) in
    let ending = Route.end_mem front in
    Route.append
      (Route.frame front (λ c a i. lives c a (grind (arith, all c)))
        (λ c d k i j. grind (arith, ahead c, k.forth, l.forth, n_front, all c))
        (λ d i. grind (arith, behind d, not_front, all d)))
      (step
        (record {
          from = lives p l.from (grind (arith, all p, ending));
          to = lives q m.to (grind (arith, all q));
          forth = grind (arith, ahead p, all p, ending);
          back = grind (arith, behind q, all q);
        })
        (Route.frame back (λ c a i. lives c a (grind (arith, all c)))
          (λ c d k i j. grind (arith, ahead c, k.forth, l.forth, n_back, all c))
          (λ d i. grind (arith, behind d, not_back, all d))))

-- The neighbours of a member, and the ring before and behind them.
pub data Around (g : Links) (head n : ℕ) (xs : List ℕ) : List ℕ → Type 0 where
  around :
      {p q : ℕ} {rest : List ℕ}
      → Route g head xs p
      → Linked g p n
      → Linked g n q
      → Route g q rest head
      → Around g head n xs (q ∷ rest)

Around-next :
    {g : Links} {head n p : ℕ} (xs ys : List ℕ)
    → Route g head xs p
    → Linked g p n
    → Route g n (ys ++ head ∷ []) head
    → Around g head n xs (ys ++ head ∷ [])
Around-next xs [] front l (step m back) = around front l m back
Around-next xs (y ∷ ys) front l (step m back) = around front l m back

pub IsList-Around :
    {g : Links} {head n : ℕ} (xs ys : List ℕ)
    → IsList g head (xs ++ n ∷ ys)
    → Around g head n xs (ys ++ head ∷ []) × AllApart (xs ++ n ∷ (ys ++ head ∷ []))
IsList-Around {g} {head} {n} xs ys is =
    let ring = rw (append_assoc xs (n ∷ ys) (head ∷ [])) at is.ring in
    let apart = rw (append_assoc xs (n ∷ ys) (head ∷ [])) at is.apart in
    let (p, front, rest) = Route.split xs (n ∷ (ys ++ head ∷ [])) ring in (cut rest front, apart)
  where
    cut :
        {p : ℕ}
        → Route g p (n ∷ (ys ++ head ∷ [])) head
        → Route g head xs p
        → Around g head n xs (ys ++ head ∷ [])
    cut (step l rest) front = Around-next xs ys front l rest

-- A removed member is a list head on its own.
pub record Deleted (head n : ℕ) (xs : List ℕ) (h : Links) : Type 0 where
  pub list : IsList h head xs
  pub new : IsNew h head xs n

module _ {g : Links} {head n : ℕ} where
  cut_Deleted :
      (xs ys : List ℕ) {total : List ℕ}
      → total ≡ ys ++ head ∷ []
      → AllApart (xs ++ n ∷ total)
      → Around g head n xs total
      → has head (xs ++ total) ≡ true
      → Returns (Deleted head n (xs ++ ys)) (list_del g n)
  unfolding list_del
  cut_Deleted xs ys e apart (around {p} {q} {rest} front l m back) root =
      let n_front = apart_front xs (q ∷ rest) n apart in
      let n_back = apart_back xs (q ∷ rest) n apart in
      let ending = Route.end_mem front in
      let all = λ (c : ℕ). has-append c xs (q ∷ rest) in
      let outside : has n (xs ++ q ∷ rest) ≡ false = ground (arith, all n, n_front, n_back) in
      bind (bypass-Bypassed g n p q l m (grind (arith, ending, all head, all p))) λ a ra.
        bind (set_prev-WrotePrev a n 0 (ra.lives n ∙ m.from)) λ b rb.
          weaken (set_next-WroteNext b n 0 (rb.lives n ∙ ra.lives n ∙ m.from)) λ h rh.
            let ring =
              Bypassed-Route {h = h} front l m back apart root
                (λ c m i. rh.lives c ∙ rb.lives c ∙ ra.lives c ∙ m)
                (λ c i. grind (arith, rh.ahead c, rb.ahead c, ra.ahead c))
                (λ c i. grind (arith, rh.behind c, rb.behind c, ra.behind c)) in
            let same : xs ++ q ∷ rest ≡ xs ++ ys ++ head ∷ [] =
              ap (λ t. xs ++ t) e ∙ sym (append_assoc xs ys (head ∷ [])) in
            record {
              list = record {
                ring = rw same at ring;
                apart = rw same at (apart-remove xs (q ∷ rest) n apart);
              };
              new = record {
                ready = rh.lives n ∙ rb.lives n ∙ ra.lives n ∙ m.from;
                outside = rw same at outside;
              };
            }

  -- `list_del` takes a member out and leaves the others in their order.
  pub list_del-Deleted :
      (xs ys : List ℕ)
      → IsList g head (xs ++ n ∷ ys)
      → Returns (Deleted head n (xs ++ ys)) (list_del g n)
  list_del-Deleted xs ys is =
      let (cut, apart) = IsList-Around xs ys is in
      cut_Deleted xs ys refl apart cut
        (ground (arith, has-append head xs (ys ++ head ∷ []), has-append head ys (head ∷ [])))

-- `list_move_tail` moves a member behind all others.
pub list_move_tail-IsList :
    {g : Links} {head : ℕ} (n : ℕ) (xs ys : List ℕ)
    → IsList g head (xs ++ n ∷ ys)
    → Returns (λ h. IsList h head (xs ++ ys ++ n ∷ [])) (list_move_tail g n head)
unfolding list_move_tail
list_move_tail-IsList n xs ys is =
    bind (list_del-Deleted xs ys is) λ h d. list_add_tail-IsList (xs ++ ys) d.list d.new
