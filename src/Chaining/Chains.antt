-- ===== src/Chaining/Chains.antt =====
-- The loops over one chain.
use textbook_c_ds_deep.Prelude.{
  ℕ, ◌%◌, ◌≡◌, refl, sym, ◌∙◌, true, false, Option, none, some, List, ◌∷◌, if◌then◌else◌,
  same_string, same_string_refl, same_string-eq, Bool-cases, inl, inr,
}
use textbook_c_ds_deep.Run.{ok, Returns, returns, branch, bind}
use textbook_c_ds_deep.Chaining.{Entry, chain_default, fnv1a, chain_update, chain_remove}
use textbook_c_ds_deep.Chaining.View.{found, IsChain, none_, more, is_for-key, check_key}

-- Two chains with the same entries but for `key`.
pub record Changed (n i : ℕ) (key : List ℕ) (v : Option ℕ) (c out : List Entry) : Type 0 where
  pub chain : IsChain n i out
  pub same : (q : List ℕ) → found q out ≡ (if same_string key q then v else found q c)

-- What the loops of `hm_put` and `hm_remove` find.
unfoldable pub Outcome : ℕ → ℕ → List ℕ → Option ℕ → List Entry → Option (List Entry) → Type 0
Outcome n i key v c none = found key c ≡ none
Outcome n i key v c (some out) = ((old : ℕ) × (found key c ≡ some old)) × Changed n i key v c out

same_string_sym : (a b : List ℕ) → same_string a b ≡ false → same_string b a ≡ false
same_string_sym a b h = elim (Bool-cases (same_string b a)) [
  | inl same ↦
      let s = same_string-eq b a same in
      let bad : false ≡ true = sym h ∙ rw s (same_string_refl a) in absurd cc
  | inr other ↦ other
]

module _ (n i : ℕ) (key : List ℕ) (v : Option ℕ) (e : Entry) (es : List Entry) (k : List ℕ)
    (named : e.key ≡ some k) (placed : fnv1a k % n ≡ i) (first : found k es ≡ none)
    (other : same_string k key ≡ false) where
  Outcome-later :
      (r : Option (List Entry))
      → Outcome n i key v es r
      → Returns
          (Outcome n i key v (e ∷ es))
          (elim r [ none ↦ ok none | some c ↦ ok (some (e ∷ c)) ])
  unfolding Outcome found
  Outcome-later none missing = returns (rw (is_for-key e k key named, other) missing)
  Outcome-later (some c) ((old, there), t) = returns (
    (old, rw (is_for-key e k key named, other) there),
    record {
      chain = more k named placed (t.same k ∙ rw (same_string_sym k key other) first) t.chain;
      same = λ q. rw (is_for-key e k q named) (elim (Bool-cases (same_string k q)) [
        | inl hit ↦
            let apart : same_string key q ≡ false =
              rw (same_string-eq k q hit) at (same_string_sym k key other) in
            rw (hit, apart) refl
        | inr miss ↦ rw (miss, t.same q) refl
      ]);
    },
  )

pub chain_update-Outcome :
    (n i : ℕ) (key : List ℕ) (value : ℕ) {c : List Entry}
    → IsChain n i c
    → Returns (Outcome n i key (some value) c) (chain_update c key value)
unfolding chain_update Outcome found
chain_update-Outcome n i key value none_ = returns refl
chain_update-Outcome n i key value (more {e} {es} k named placed first rest) =
    bind (check_key e.key k named) λ k' s. rw s (
      branch (same_string k key)
        (λ hit. returns (
          (e.value, rw (is_for-key e k key named, hit) refl),
          record {
            chain = more k named placed first rest;
            same = λ q.
                let s' = same_string-eq k key hit in
                rw (is_for-key e k q named, sym s')
                  (elim (Bool-cases (same_string k q)) [
                    | inl now ↦ rw (is_for-key (record e { value = value }) k q named, now) refl
                    | inr never ↦ rw (is_for-key (record e { value = value }) k q named, never) refl
                  ]);
          },
        ))
        (λ miss.
          bind (chain_update-Outcome n i key value rest)
            (Outcome-later n i key (some value) e es k named placed first miss)))

pub chain_remove-Outcome :
    (n i : ℕ) (key : List ℕ) {c : List Entry}
    → IsChain n i c
    → Returns (Outcome n i key none c) (chain_remove c key)
unfolding chain_remove Outcome found
chain_remove-Outcome n i key none_ = returns refl
chain_remove-Outcome n i key (more {e} {es} k named placed first rest) =
    bind (check_key e.key k named) λ k' s. rw s (
      branch (same_string k key)
        (λ hit. returns (
          (e.value, rw (is_for-key e k key named, hit) refl),
          record {
            chain = rest;
            same = λ q.
                let s' = same_string-eq k key hit in
                rw (is_for-key e k q named, sym s')
                  (elim (Bool-cases (same_string k q)) [
                    | inl now ↦ rw (now, sym (same_string-eq k q now)) first
                    | inr never ↦ rw never refl
                  ]);
          },
        ))
        (λ miss.
          bind (chain_remove-Outcome n i key rest)
            (Outcome-later n i key none e es k named placed first miss)))
