-- ===== src/Chaining/Move.antt =====
-- A rehash keeps what lookups see.
use mathlib.Core.Option.{or_else}
use textbook_c_ds_deep.Prelude.{
  ℕ, zero, suc, ◌+◌, ◌*◌, ◌%◌, ◌^◌, ◌<◌, ◌≡◌, refl, ap, ◌∙◌, true, false, Option, none, some, List,
  [], ◌∷◌, arith, ◌==◌, ltb, if◌then◌else◌, set, same_string, same_string_refl, same_string-eq,
  Bool-cases, inl, inr, ◌⊎◌, replicate, length-replicate,
}
use textbook_c_ds_deep.Run.{Returns, returns, branch, bind, weaken}
use textbook_c_ds_deep.Array.{at}
use textbook_c_ds_deep.Chaining.{
  Entry, HashMap, chain_default, fnv1a, move_chain, rehash_loop, hm_rehash, empty_buckets,
}
use textbook_c_ds_deep.Chaining.View.{
  found, view, IsChain, none_, more, IsTable, is_for-key, view-set, IsTable-set, found-elsewhere,
  index_fits, load-chain, store-chain, check_key,
}

-- An entry put before the chain of its key, which the table has not.
pub pushed_view :
    (n : ℕ) (bs : List (List Entry)) (e : Entry) (k : List ℕ)
    → IsTable n bs
    → e.key ≡ some k
    → (key : List ℕ)
    → view n (set bs (fnv1a k % n) (e ∷ at bs (fnv1a k % n))) key
      ≡ (if same_string k key then some e.value else view n bs key)
unfolding found view
pushed_view n bs e k t named key =
    let i = fnv1a k % n in
    view-set n i bs (e ∷ at bs i) key t (index_fits n bs k t)
    ∙ elim (Bool-cases (same_string k key)) [
      | inl same ↦
          let s = same_string-eq k key same in
          let here : (i == fnv1a key % n) ≡ true = rw s (ground arith) in
          rw (here, is_for-key e k key named, same) refl
      | inr other ↦ elim (Bool-cases (i == fnv1a key % n)) [
        | inl here ↦
            let j : i ≡ fnv1a key % n = ground arith in
            rw (here, is_for-key e k key named, other, j) refl
        | inr apart ↦ rw (apart, other) refl
      ]
    ]

pub pushed_IsTable :
    (n : ℕ) (bs : List (List Entry)) (e : Entry) (k : List ℕ)
    → IsTable n bs
    → e.key ≡ some k
    → view n bs k ≡ none
    → IsTable n (set bs (fnv1a k % n) (e ∷ at bs (fnv1a k % n)))
unfolding view
pushed_IsTable n bs e k t named new =
    let i = fnv1a k % n in
    IsTable-set n i bs (e ∷ at bs i) t (index_fits n bs k t)
      (more k named refl new (t.chains i (index_fits n bs k t)))

-- A table whose lookups see `es` before what those of `bs` see.
record Moved (n : ℕ) (es : List Entry) (bs out : List (List Entry)) : Type 0 where
  table : IsTable n out
  same : (key : List ℕ) → view n out key ≡ or_else (found key es) (view n bs key)

-- Every key is missing among the entries or in the table.
abbrev Apart : ℕ → List Entry → List (List Entry) → Type 0
Apart n es bs = (key : List ℕ) → (found key es ≡ none) ⊎ (view n bs key ≡ none)

module _ (n : ℕ) (bs : List (List Entry)) (e : Entry) (es : List Entry) (k : List ℕ)
    (t : IsTable n bs) (named : e.key ≡ some k) (first : found k es ≡ none) where
  abbrev pushed : List (List Entry)
  pushed = set bs (fnv1a k % n) (e ∷ at bs (fnv1a k % n))

  Apart-pushed : Apart n (e ∷ es) bs → Apart n es pushed
  unfolding found
  Apart-pushed apart key = elim (Bool-cases (same_string k key)) [
    | inl same ↦ let s = same_string-eq k key same in inl (rw s at first)
    | inr other ↦
        let v = pushed_view n bs e k t named key in
        elim (apart key) [
          | inl missing ↦ inl (rw (is_for-key e k key named, other) at missing)
          | inr new ↦ inr (v ∙ rw other new)
        ]
  ]

  Apart-view : Apart n (e ∷ es) bs → view n bs k ≡ none
  unfolding found
  Apart-view apart = elim (apart k) [
    | inl missing ↦
        let bad = rw (is_for-key e k k named, same_string_refl k) at missing in absurd cc
    | inr new ↦ new
  ]

  Moved-pushed : (out : List (List Entry)) → Moved n es pushed out → Moved n (e ∷ es) bs out
  unfolding found or_else
  Moved-pushed out m = record {
    table = m.table;
    same = λ key.
        m.same key
        ∙ rw (pushed_view n bs e k t named key, is_for-key e k key named)
            (elim (Bool-cases (same_string k key)) [
              | inl same ↦
                  let s = same_string-eq k key same in
                  let missing : found key es ≡ none = rw s at first in rw (same, missing) refl
              | inr other ↦ rw other refl
            ]);
  }

move_chain-Moved :
    (m i n : ℕ) {es : List Entry} (bs : List (List Entry))
    → IsChain m i es
    → IsTable n bs
    → Apart n es bs
    → Returns (Moved n es bs) (move_chain es n bs)
unfolding move_chain or_else found
move_chain-Moved m i n bs none_ t apart = returns (record { table = t; same = λ key. refl })
move_chain-Moved m i n bs (more {e} {es} k named placed first rest) t apart =
    let j = index_fits n bs k t in
    bind (check_key e.key k named) λ k' s.
      rw
        (
          s,
          load-chain n (fnv1a k % n) bs t j,
          store-chain n (fnv1a k % n) bs (e ∷ at bs (fnv1a k % n)) t j,
        )
        (weaken
          (move_chain-Moved m i n (pushed n bs e es k t named first) rest
            (pushed_IsTable n bs e k t named (Apart-view n bs e es k t named first apart))
            (Apart-pushed n bs e es k t named first apart))
          (Moved-pushed n bs e es k t named first))

-- After the first `i` buckets lookups of their keys see what they saw, and others see nothing.
record HalfMoved (m n i : ℕ) (bs out : List (List Entry)) : Type 0 where
  table : IsTable n out
  same : (key : List ℕ) → view n out key ≡ (if ltb (fnv1a key % m) i then view m bs key else none)

or_else-none : (o : Option ℕ) → or_else o none ≡ o
unfolding or_else
or_else-none none = refl
or_else-none (some v) = refl

at-replicate : (n i : ℕ) → at {A = List Entry} (replicate n []) i ≡ []
unfolding at
at-replicate zero i = refl
at-replicate (suc n) zero = refl
at-replicate (suc n) (suc i) = at-replicate n i

view_fresh : (n : ℕ) (key : List ℕ) → view n (replicate n []) key ≡ none
unfolding view found
view_fresh n key = rw (at-replicate n (fnv1a key % n)) refl

rehash_loop-Moved :
    (rounds i m n : ℕ) (bs new : List (List Entry))
    → i + rounds ≡ m
    → IsTable m bs
    → HalfMoved m n i bs new
    → Returns (HalfMoved m n m bs) (rehash_loop rounds i bs n new)
unfolding rehash_loop or_else view found
rehash_loop-Moved zero i m n bs new total old half =
    let e : i ≡ m = omega arith in returns (rw e at half)
rehash_loop-Moved (suc rounds) i m n bs new total old half =
    let inside : i < m = omega arith in
    let chain = old.chains i inside in
    rw (load-chain m i bs old inside) (
      bind
        (move_chain-Moved m i n new chain half.table (λ key.
          elim (Bool-cases (fnv1a key % m == i)) [
            | inl here ↦
                let later : ltb (fnv1a key % m) i ≡ false = ground arith in
                inr (half.same key ∙ rw later refl)
            | inr other ↦ inl (found-elsewhere key chain other)
          ]))
        λ out s. rehash_loop-Moved rounds (i + 1) m n bs out (omega arith) old (record {
          table = s.table;
          same =
              λ key. s.same key ∙ ap (or_else (found key (at bs i))) (half.same key) ∙ joined key;
        }))
  where
    joined :
        (key : List ℕ)
        → or_else (found key (at bs i)) (if ltb (fnv1a key % m) i then view m bs key else none)
          ≡ (if ltb (fnv1a key % m) (i + 1) then view m bs key else none)
    joined key = elim (Bool-cases (fnv1a key % m == i)) [
      | inl here ↦
          let j : fnv1a key % m ≡ i = ground arith in
          let later : ltb i i ≡ false = ground arith in
          let now : ltb i (i + 1) ≡ true = ground arith in
          rw (j, later, now) (or_else-none (found key (at bs i)))
      | inr other ↦
          let none_here = found-elsewhere key (old.chains i (omega arith)) other in
          let same : ltb (fnv1a key % m) (i + 1) ≡ ltb (fnv1a key % m) i = ground arith in
          rw (none_here, same) refl
    ]

-- `hm_rehash` keeps what lookups see, and doubles the buckets, if calloc finds them and an int can
-- count them.
pub hm_rehash-Moved :
    (hm : HashMap)
    → IsTable hm.bucket_count hm.buckets
    → hm.bucket_count * 2 < 2 ^ 31
    → Returns
        (λ out.
          IsTable out.bucket_count out.buckets
          × (out.size ≡ hm.size)
          × ((key : List ℕ)
              → view out.bucket_count out.buckets key ≡ view hm.bucket_count hm.buckets key))
        (hm_rehash true hm)
unfolding hm_rehash
hm_rehash-Moved hm t small =
    let n = hm.bucket_count * 2 in
    let new = empty_buckets true n in
    bind (branch {P = λ m. m ≡ n} (ltb n (2 ^ 31)) (λ e. returns refl) (λ e. absurd (ground arith)))
      λ m e. rw e (
        bind
          (rehash_loop-Moved hm.bucket_count 0 hm.bucket_count n hm.buckets (replicate n [])
            (omega arith) t
            (record {
              table = record {
                width = length-replicate n [];
                positive = omega (arith, t.positive);
                chains = λ i p. rw (at-replicate n i) none_;
              };
              same = λ key.
                  view_fresh n key
                  ∙ (let early : ltb (fnv1a key % hm.bucket_count) 0 ≡ false = ground arith in
                      rw early refl);
            }))
          λ out s. returns (
            s.table,
            refl,
            λ key.
                s.same key
                ∙ (let here : ltb (fnv1a key % hm.bucket_count) hm.bucket_count ≡ true =
                      ground (arith, index_fits hm.bucket_count hm.buckets key t) in
                    rw here refl),
          ))
