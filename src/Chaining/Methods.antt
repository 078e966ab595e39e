-- ===== src/Chaining/Methods.antt =====
-- Lookup, insertion and removal against what the map holds.
use textbook_c_ds_deep.Prelude.{
  ℕ, ◌+◌, ◌-◌, ◌*◌, ◌%◌, ◌^◌, ◌<◌, ◌≡◌, refl, sym, ap, ◌∙◌, Bool, true, false, Option, none, some,
  List, ◌∷◌, arith, ◌==◌, ltb, if◌then◌else◌, same_string, same_string-eq, Bool-cases, inl, inr,
  set,
}
use textbook_c_ds_deep.Run.{ok, ◌>>=◌, Returns, returns, branch, bind, weaken, int_result}
use textbook_c_ds_deep.Array.{at, store}
use textbook_c_ds_deep.Chaining.{
  Entry, HashMap, chain_default, fnv1a, bucket_idx, hm_get, hm_put, hm_remove,
}
use textbook_c_ds_deep.Chaining.View.{
  found, view, more, IsTable, is_for-key, view-set, IsTable-set, index_fits, load-chain,
  store-chain, chain_get-ok,
}
use textbook_c_ds_deep.Chaining.Chains.{
  Changed, Outcome, chain_update-Outcome, chain_remove-Outcome,
}
use textbook_c_ds_deep.Chaining.Move.{hm_rehash-Moved}

-- The buckets of a map are a table.
abbrev pub IsMap : HashMap → Type 0
IsMap hm = IsTable hm.bucket_count hm.buckets

-- What the map holds for a key.
abbrev pub held : HashMap → List ℕ → Option ℕ
held hm key = view hm.bucket_count hm.buckets key

-- `hm_get` of a map returns what it holds.
pub hm_get-held : (hm : HashMap) (key : List ℕ) → IsMap hm → hm_get hm key ≡ ok (held hm key)
unfolding hm_get bucket_idx view
hm_get-held hm key t =
    let i = index_fits hm.bucket_count hm.buckets key t in
    let some_buckets : (hm.bucket_count == 0) ≡ false = ground (arith, t.positive) in
    rw (some_buckets, load-chain hm.bucket_count (fnv1a key % hm.bucket_count) hm.buckets t i)
      (chain_get-ok key (t.chains (fnv1a key % hm.bucket_count) i))

-- The chain of the key is changed for it alone: so is the map.
bucket-Changed :
    (n : ℕ) (bs : List (List Entry)) (key : List ℕ) (v : Option ℕ) (c : List Entry)
    → IsTable n bs
    → Changed n (fnv1a key % n) key v (at bs (fnv1a key % n)) c
    → IsTable n (set bs (fnv1a key % n) c)
      × ((q : List ℕ)
          → view n (set bs (fnv1a key % n) c) q ≡ (if same_string key q then v else view n bs q))
unfolding view
bucket-Changed n bs key v c t changed =
    let i = fnv1a key % n in
    let inside = index_fits n bs key t in
    (
      IsTable-set n i bs c t inside changed.chain,
      λ q. view-set n i bs c q t inside ∙ elim (Bool-cases (i == fnv1a q % n)) [
        | inl here ↦ let j : i ≡ fnv1a q % n = ground arith in rw (here, changed.same q, sym j) refl
        | inr apart ↦
            let other : same_string key q ≡ false = elim (Bool-cases (same_string key q)) [
              | inl same ↦
                  let s = same_string-eq key q same in
                  let here : (i == fnv1a q % n) ≡ true = rw (sym s) (ground arith) in
                  let bad : false ≡ true = sym apart ∙ here in absurd cc
              | inr differs ↦ differs
            ] in
            rw (apart, other) refl
      ],
    )

-- The map after a change of what it holds for one key.
pub record Holding (hm : HashMap) (key : List ℕ) (v : Option ℕ) (out : HashMap) : Type 0 where
  pub table : IsMap out
  pub same : (q : List ℕ) → held out q ≡ (if same_string key q then v else held hm q)

-- One for a key that the map does not hold.
abbrev pub added : Option ℕ → ℕ
added none = 1
added (some v) = 0

abbrev pub Put : HashMap → List ℕ → ℕ → HashMap → Type 0
Put hm key value out = Holding hm key (some value) out × (out.size ≡ hm.size + added (held hm key))

module _ (g : HashMap) (key : List ℕ) (value : ℕ) (t : IsMap g) (small : g.size + 1 < 2 ^ 31) where
  abbrev place : ℕ
  place = fnv1a key % g.bucket_count

  chain-Put :
      (r : Option (List Entry))
      → Outcome g.bucket_count place key (some value) (at g.buckets place) r
      → Returns (Put g key value) (elim r [
        | some c ↦ store g.buckets place c >>= λ b. ok (record g { buckets = b })
        | none ↦
            store g.buckets place (record { key = some key; value = value } ∷ at g.buckets place)
            >>= λ b. int_result (g.size + 1) >>= λ size. ok (record g { buckets = b; size = size })
      ])
  unfolding Outcome found view
  chain-Put (some c) ((old, there), changed) =
      let inside = index_fits g.bucket_count g.buckets key t in
      let out = bucket-Changed g.bucket_count g.buckets key (some value) c t changed in
      let before : held g key ≡ some old = there in
      rw (store-chain g.bucket_count place g.buckets c t inside)
        (returns (record { table = out.0; same = out.1 }, rw before (omega arith)))
  chain-Put none missing =
      let inside = index_fits g.bucket_count g.buckets key t in
      let e : Entry = record { key = some key; value = value } in
      let changed : Changed g.bucket_count place key (some value) (at g.buckets place)
          (e ∷ at g.buckets place) =
        record {
          chain = more key refl refl missing (t.chains place inside);
          same = λ q. rw (is_for-key e key q refl) refl;
        } in
      let out =
        bucket-Changed g.bucket_count g.buckets key (some value) (e ∷ at g.buckets place) t
          changed in
      let before : held g key ≡ none = missing in
      rw (store-chain g.bucket_count place g.buckets (e ∷ at g.buckets place) t inside) (
        bind
          (branch {P = λ m. m ≡ g.size + 1} (ltb (g.size + 1) (2 ^ 31)) (λ e. returns refl)
            (λ e. absurd (ground arith)))
          λ size f. returns (record { table = out.0; same = out.1 }, rw (f, before) refl))

-- What growing leaves.
record Grown (hm g : HashMap) : Type 0 where
  table : IsMap g
  size : g.size ≡ hm.size
  same : (q : List ℕ) → held g q ≡ held hm q

-- With memory and below the limits of an int, `hm_put` returns a map that holds the value for the
-- key, and for every other key what it held, also where it doubles its buckets first; the size grows by one just
-- for a key that was not there.
pub hm_put-Put :
    (exceeds : ℕ → ℕ → Bool) (hm : HashMap) (key : List ℕ) (value : ℕ)
    → IsMap hm
    → hm.bucket_count * 2 < 2 ^ 31
    → hm.size + 1 < 2 ^ 31
    → Returns (Put hm key value) (hm_put exceeds true true true hm key value)
unfolding hm_put bucket_idx
hm_put-Put exceeds hm key value t small room =
    bind
      (branch {P = Grown hm} (exceeds hm.size hm.bucket_count)
        (λ over.
          weaken (hm_rehash-Moved hm t small) λ g m. record { table = m.0; size = m.1; same = m.2 })
        (λ under. returns (record { table = t; size = refl; same = λ q. refl })))
      λ g grown.
        let i = index_fits g.bucket_count g.buckets key grown.table in
        let some_buckets : (g.bucket_count == 0) ≡ false = ground (arith, grown.table.positive) in
        rw
          (
            some_buckets,
            load-chain g.bucket_count (fnv1a key % g.bucket_count) g.buckets grown.table i,
          )
          (bind
            (chain_update-Outcome g.bucket_count (fnv1a key % g.bucket_count) key value
              (grown.table.chains _ i))
            λ r o. weaken (chain-Put g key value grown.table (rw grown.size room) r o) λ out p. (
              record {
                table = p.0.table;
                same = λ q.
                    p.0.same q
                    ∙ ap (λ v. if same_string key q then some value else v) (grown.same q);
              },
              rw (grown.size, grown.same) at p.1,
            ))

-- The result and the map that a removal leaves.
pub record Removed (hm : HashMap) (key : List ℕ) (out : Bool × HashMap) : Type 0 where
  pub map_ : Holding hm key none out.1
  pub size : out.1.size ≡ hm.size - (1 - added (held hm key))
  pub told : out.0 ≡ (added (held hm key) == 0)

chain-Removed :
    (hm : HashMap) (key : List ℕ) (t : IsMap hm) (r : Option (List Entry))
    → Outcome hm.bucket_count
        (fnv1a key % hm.bucket_count)
        key
        none
        (at hm.buckets (fnv1a key % hm.bucket_count))
        r
    → Returns (Removed hm key) (elim r [
      | none ↦ ok (false, hm)
      | some c ↦ store hm.buckets (fnv1a key % hm.bucket_count) c >>= λ b.
          ok (true, record hm { buckets = b; size = hm.size - 1 })
    ])
unfolding Outcome view
chain-Removed hm key t none missing =
    let before : held hm key ≡ none = missing in
    returns {a = (false, hm)} (record {
      map_ = record {
        table = t;
        same = λ q. elim (Bool-cases (same_string key q)) [
          | inl same ↦ rw (same, sym (same_string-eq key q same)) before
          | inr other ↦ rw other refl
        ];
      };
      size = rw before (omega arith);
      told = rw before refl;
    })
chain-Removed hm key t (some c) ((old, there), changed) =
    let i = fnv1a key % hm.bucket_count in
    let out = bucket-Changed hm.bucket_count hm.buckets key none c t changed in
    let before : held hm key ≡ some old = there in
    rw (store-chain hm.bucket_count i hm.buckets c t (index_fits hm.bucket_count hm.buckets key t))
      (returns (record {
        map_ = record { table = out.0; same = out.1 };
        size = rw before refl;
        told = rw before refl;
      }))

-- `hm_remove` returns whether the map held the key, and a map that does not hold it, that is the same
-- for every other key, and that counts one entry less just if the key was there.
pub hm_remove-Removed :
    (hm : HashMap) (key : List ℕ) → IsMap hm → Returns (Removed hm key) (hm_remove hm key)
unfolding hm_remove bucket_idx
hm_remove-Removed hm key t =
    let i = index_fits hm.bucket_count hm.buckets key t in
    let some_buckets : (hm.bucket_count == 0) ≡ false = ground (arith, t.positive) in
    rw (some_buckets, load-chain hm.bucket_count (fnv1a key % hm.bucket_count) hm.buckets t i)
      (bind (chain_remove-Outcome hm.bucket_count (fnv1a key % hm.bucket_count) key (t.chains _ i))
        (chain-Removed hm key t))
