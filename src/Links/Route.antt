-- ===== src/Links/Route.antt =====
-- Paths along the links, and what a change of some links leaves of them.
use textbook_c_ds_deep.Prelude.{
  ℕ, ◌≡◌, refl, ◌∙◌, Bool, true, false, ◌||◌, List, [], ◌∷◌, ◌++◌, arith, ◌==◌,
}
use textbook_c_ds_deep.Links.{Links, alive, next_of, prev_of}

-- `a` is one of the addresses.
abbrev pub has : ℕ → List ℕ → Bool
has a [] = false
has a (x ∷ xs) = (a == x) || has a xs

-- No address twice.
unfoldable pub AllApart : List ℕ → Type 0
AllApart [] = Unit {0}
AllApart (x ∷ xs) = (has x xs ≡ false) × AllApart xs

-- `a` and `b` point to each other.
pub record Linked (g : Links) (a b : ℕ) : Type 0 where
  pub from : alive g a ≡ true
  pub to : alive g b ≡ true
  pub forth : next_of g a ≡ b
  pub back : prev_of g b ≡ a

-- From `a` the links lead through `xs`, which ends with `b`.
pub data Route (g : Links) : ℕ → List ℕ → ℕ → Type 0 where
  stop : {a : ℕ} → Route g a [] a
  step : {a b c : ℕ} {xs : List ℕ} → Linked g a b → Route g b xs c → Route g a (b ∷ xs) c

pub has-append : (a : ℕ) (xs ys : List ℕ) → has a (xs ++ ys) ≡ (has a xs || has a ys)
has-append a [] ys = refl
has-append a (x ∷ xs) ys = ground (arith, has-append a xs ys)

module _ {g h : Links} where
  -- A path stays where the links that it takes stay.
  pub frame :
      {a b : ℕ} {xs : List ℕ}
      → Route g a xs b
      → ((c : ℕ) → alive g c ≡ true → has c (a ∷ xs) ≡ true → alive h c ≡ true)
      → ((c d : ℕ) → Linked g c d → has c (a ∷ xs) ≡ true → has d xs ≡ true → next_of h c ≡ d)
      → ((d : ℕ) → has d xs ≡ true → prev_of h d ≡ prev_of g d)
      → Route h a xs b
  frame stop lives ahead behind = stop
  frame (step {a} {b} l p) lives ahead behind =
      step
        (record {
          from = lives a l.from (ground arith);
          to = lives b l.to (ground arith);
          forth = ahead a b l (ground arith) (ground arith);
          back = behind b (ground arith) ∙ l.back;
        })
        (frame p (λ c m i. lives c m (ground arith))
          (λ c d m j i. ahead c d m (ground arith) (ground arith)) (λ d i. behind d (ground arith)))

module _ {g : Links} where
  pub append :
      {a b c : ℕ} {xs ys : List ℕ} → Route g a xs b → Route g b ys c → Route g a (xs ++ ys) c
  append stop q = q
  append (step l p) q = step l (append p q)

  -- The last step of a path.
  pub last_step :
      {a c : ℕ} (xs : List ℕ) (b : ℕ)
      → Route g a (xs ++ b ∷ []) c
      → (p : ℕ) × Route g a xs p × Linked g p b × (b ≡ c)
  last_step {a} [] b (step l stop) = (a, stop, l, refl)
  last_step (x ∷ xs) b (step l p) = let (q, rest, m, e) = last_step xs b p in (q, step l rest, m, e)

  -- Where a path is cut.
  pub split :
      {a c : ℕ} (xs ys : List ℕ)
      → Route g a (xs ++ ys) c
      → (b : ℕ) × Route g a xs b × Route g b ys c
  split {a} [] ys p = (a, stop, p)
  split (x ∷ xs) ys (step l p) = let (b, front, rest) = split xs ys p in (b, step l front, rest)

  -- A path ends where it began or at one of its addresses.
  pub end_mem : {a c : ℕ} {xs : List ℕ} → Route g a xs c → has c (a ∷ xs) ≡ true
  end_mem {a} stop = ground arith
  end_mem (step l p) = ground (arith, end_mem p)

-- What lies before and behind an address is apart from it.
pub apart_front : (xs ys : List ℕ) (q : ℕ) → AllApart (xs ++ q ∷ ys) → has q xs ≡ false
unfolding AllApart
apart_front [] ys q h = refl
apart_front (x ∷ xs) ys q (new, h) =
    ground (arith, has-append x xs (q ∷ ys), new, apart_front xs ys q h)

pub apart_back : (xs ys : List ℕ) (q : ℕ) → AllApart (xs ++ q ∷ ys) → has q ys ≡ false
unfolding AllApart
apart_back [] ys q (new, h) = new
apart_back (x ∷ xs) ys q (new, h) = apart_back xs ys q h

pub apart-insert :
    (xs ys : List ℕ) (n : ℕ)
    → AllApart (xs ++ ys)
    → has n (xs ++ ys) ≡ false
    → AllApart (xs ++ n ∷ ys)
unfolding AllApart
apart-insert [] ys n h new = (new, h)
apart-insert (x ∷ xs) ys n (old, h) new = (
  ground (arith, has-append x xs ys, has-append x xs (n ∷ ys), old, new),
  apart-insert xs ys n h (ground (arith, new)),
)

pub apart-remove : (xs ys : List ℕ) (n : ℕ) → AllApart (xs ++ n ∷ ys) → AllApart (xs ++ ys)
unfolding AllApart
apart-remove [] ys n (old, h) = h
apart-remove (x ∷ xs) ys n (old, h) =
    (ground (arith, has-append x xs ys, has-append x xs (n ∷ ys), old), apart-remove xs ys n h)
