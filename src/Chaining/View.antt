-- ===== src/Chaining/View.antt =====
-- What lookups see, and the order that the buckets keep.
use textbook_c_ds_deep.Prelude.{
  ℕ, ◌%◌, ◌<◌, ◌≡◌, refl, sym, ◌∙◌, Bool, false, Option, none, some, List, [], ◌∷◌, arith, ◌==◌,
  if◌then◌else◌, length, set, length-set, same_string, same_string-eq, Bool-cases, inl, inr,
}
use native.Mathlib.Nat.{mod-lt}
use textbook_c_ds_deep.Run.{ok, check, Returns, returns}
use textbook_c_ds_deep.Array.{at, at-set, load, load-ok, store, store-ok}
use textbook_c_ds_deep.Chaining.{Entry, chain_default, fnv1a, chain_get}

-- The entry is for `key`.
unfoldable pub is_for : List ℕ → Entry → Bool
is_for key e = elim e.key [ none ↦ false | some k ↦ same_string k key ]

-- The value of the first entry for `key`.
unfoldable pub found : List ℕ → List Entry → Option ℕ
found key [] = none
found key (e ∷ es) = let rest = found key es in if is_for key e then some e.value else rest

-- What lookups in `n` buckets see.
unfoldable pub view : ℕ → List (List Entry) → List ℕ → Option ℕ
view n bs key = found key (at bs (fnv1a key % n))

-- A chain of bucket `i` of `n`: its keys hash to `i`, and none comes twice.
pub data IsChain (n i : ℕ) : List Entry → Type 0 where
  none_ : IsChain n i []
  more :
      {e : Entry} {es : List Entry} (k : List ℕ)
      → e.key ≡ some k
      → fnv1a k % n ≡ i
      → found k es ≡ none
      → IsChain n i es
      → IsChain n i (e ∷ es)

pub record IsTable (n : ℕ) (bs : List (List Entry)) : Type 0 where
  pub width : length bs ≡ n
  pub positive : 0 < n
  pub chains : (i : ℕ) → i < n → IsChain n i (at bs i)

pub is_for-key : (e : Entry) (k key : List ℕ) → e.key ≡ some k → is_for key e ≡ same_string k key
unfolding is_for
is_for-key e k key h = rw h refl

-- One bucket changed, in which the lookups of keys of other buckets find nothing.
pub view-set :
    (n i : ℕ) (bs : List (List Entry)) (c : List Entry) (key : List ℕ)
    → IsTable n bs
    → i < n
    → view n (set bs i c) key ≡ (if i == fnv1a key % n then found key c else view n bs key)
unfolding view
view-set n i bs c key t h =
    rw (at-set bs i (fnv1a key % n) c (omega (arith, t.width, h)))
      (elim (Bool-cases (i == fnv1a key % n)) [
        | inl same ↦ rw same refl
        | inr other ↦ rw other refl
      ])

pub IsTable-set :
    (n i : ℕ) (bs : List (List Entry)) (c : List Entry)
    → IsTable n bs
    → i < n
    → IsChain n i c
    → IsTable n (set bs i c)
IsTable-set n i bs c t h chain = record {
  width = length-set bs i c ∙ t.width;
  positive = t.positive;
  chains = λ j p. rw (at-set bs i j c (omega (arith, t.width, h))) (elim (Bool-cases (i == j)) [
    | inl same ↦ let e : i ≡ j = ground arith in rw (same, sym e) chain
    | inr other ↦ rw other (t.chains j p)
  ]);
}

-- A chain holds no key of another bucket.
pub found-elsewhere :
    {n i : ℕ} {c : List Entry} (key : List ℕ)
    → IsChain n i c
    → (fnv1a key % n == i) ≡ false
    → found key c ≡ none
unfolding found
found-elsewhere key none_ h = refl
found-elsewhere {n} {i} key (more {e} {es} k named placed first rest) h =
    let other : is_for key e ≡ false =
      is_for-key e k key named ∙ elim (Bool-cases (same_string k key)) [
        | inl same ↦
            let s = same_string-eq k key same in
            let p : fnv1a key % n ≡ i = rw s at placed in absurd (ground (arith, p, h))
        | inr differs ↦ differs
      ] in
    rw other (found-elsewhere key rest h)

-- The loop of `hm_get` finds what there is.
pub chain_get-ok :
    {n i : ℕ} {c : List Entry} (key : List ℕ) → IsChain n i c → chain_get c key ≡ ok (found key c)
unfolding chain_get found
chain_get-ok key none_ = refl
chain_get-ok key (more {e} {es} k named placed first rest) =
    rw (is_for-key e k key named, named, chain_get-ok key rest)
      (elim (Bool-cases (same_string k key)) [
        | inl same ↦ rw same refl
        | inr other ↦ rw other refl
      ])

pub check_key : (o : Option (List ℕ)) (k : List ℕ) → o ≡ some k → Returns (λ x. x ≡ k) (check o)
check_key o k h = rw h (returns refl)

-- A table has the chain of every key.
pub index_fits : (n : ℕ) (bs : List (List Entry)) (key : List ℕ) → IsTable n bs → fnv1a key % n < n
index_fits n bs key t = mod-lt (fnv1a key) t.positive

pub load-chain :
    (n i : ℕ) (bs : List (List Entry)) → IsTable n bs → i < n → load bs i ≡ ok (at bs i)
load-chain n i bs t h = load-ok bs i (omega (arith, t.width, h))

pub store-chain :
    (n i : ℕ) (bs : List (List Entry)) (c : List Entry)
    → IsTable n bs
    → i < n
    → store bs i c ≡ ok (set bs i c)
store-chain n i bs c t h = store-ok bs i c (omega (arith, t.width, h))
