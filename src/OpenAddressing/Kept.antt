-- ===== src/OpenAddressing/Kept.antt =====
-- The table after a put: its invariant and its probe paths.
use textbook_c_ds_deep.Prelude.{
  ℕ, zero, suc, ◌+◌, ◌≤◌, ◌<◌, ◌≡◌, refl, sym, ap, ◌∙◌, true, false, none, some, List, leb, ◌==◌,
  if◌then◌else◌, arith, length-set, same_string, same_string_refl, same_string-eq, inl, inr,
  Bool-cases,
}
use textbook_c_ds_deep.Array.{at, at-set}
use textbook_c_ds_deep.OpenAddressing.{
  OaHashMap, Slot, empty, tombstone, used, slot_default, probe, cell, IsValid,
}
use textbook_c_ds_deep.OpenAddressing.Scan.{look, scan, probe-inside}
use textbook_c_ds_deep.OpenAddressing.Land.{accepts, Lands, put_at}
use textbook_c_ds_deep.OpenAddressing.Look.{
  look_pass, holds, look_hit, holds_used, look_miss, look_open,
}

module _ (hm : OaHashMap) (key : List ℕ) (value p n : ℕ) (h : IsValid hm)
    (l : Lands (cell hm key) key 0 p) where
  abbrev pub after_put : OaHashMap
  after_put = put_at hm key value p n

  -- The slots of any probe path after the put.
  cell-put :
      (k : List ℕ) (j : ℕ)
      → cell after_put k j
        ≡ (if probe hm key p == probe hm k j then used key value else cell hm k j)
  unfolding put_at probe
  cell-put k j =
      at-set hm.slots (probe hm key p) (probe hm k j) (used key value) (probe-inside hm key p h)

  -- The slot of the put on another path: it holds the key.
  path-same :
      (k : List ℕ) (j w : ℕ) → cell hm k j ≡ used k w → (x : ℕ) × (cell after_put k j ≡ used k x)
  unfolding accepts
  path-same k j w e = elim (Bool-cases (probe hm key p == probe hm k j)) [
    | inl same ↦
        let at_p : probe hm key p ≡ probe hm k j = ground arith in
        let there : cell hm key p ≡ used k w = ap (at hm.slots) at_p ∙ e in
        let k_is : k ≡ key = same_string-eq k key (rw there at l.stops) in
        (value, cell-put k j ∙ rw (same, k_is) refl)
    | inr other ↦ (w, cell-put k j ∙ rw other e)
  ]

  cell_put : cell after_put key p ≡ used key value
  cell_put =
      let self : (probe hm key p == probe hm key p) ≡ true = ground arith in
      cell-put key p ∙ rw self refl

  -- A put does not pass an empty slot.
  put-before : (i : ℕ) → cell hm key i ≡ empty → (probe hm key p == probe hm key i) ≡ false → p < i
  unfolding accepts
  put-before i e differs = elim (Bool-cases (leb i p)) [
    | inr before ↦ ground arith
    | inl behind ↦ elim (Bool-cases (i == p)) [
      | inl same ↦
          let is_p : i ≡ p = ground arith in
          let no : (probe hm key p == probe hm key p) ≡ false = rw is_p at differs in ground arith
      | inr other ↦
          let no : true ≡ false = rw e at (l.passed i (omega arith) (ground arith)) in absurd cc
    ]
  ]

  path-put :
      (k : List ℕ) (i j v : ℕ)
      → i < j
      → cell after_put k i ≡ empty
      → cell after_put k j ≡ used k v
      → (x : ℕ) × (w : ℕ) × (x < i) × (cell after_put k x ≡ used k w)
  unfolding accepts
  path-put k i j v lt e u = elim (Bool-cases (probe hm key p == probe hm k i)) [
    | inl filled ↦
        let no : used key value ≡ empty = rw filled at (sym (cell-put k i) ∙ e) in absurd cc
    | inr still ↦
        let e_old : cell hm k i ≡ empty = rw still at (sym (cell-put k i) ∙ e) in
        elim (Bool-cases (probe hm key p == probe hm k j)) [
          | inr other ↦
              let u_old : cell hm k j ≡ used k v = rw other at (sym (cell-put k j) ∙ u) in
              let (x, w, less, c) = h.path k i j v lt e_old u_old in
              let (w', c') = path-same k x w c in (x, w', less, c')
          | inl here ↦
              let is_put : used key value ≡ used k v = rw here at (sym (cell-put k j) ∙ u) in
              let k_is : key ≡ k = cc in
              let same_slot : (probe hm key p == probe hm key i) ≡ false = rw (← k_is) at still in
              let e_key : cell hm key i ≡ empty = rw (← k_is) at e_old in
              rw (← k_is) (p, value, put-before i e_key same_slot, cell_put)
        ]
  ]

  pub put-IsValid : IsValid after_put
  unfolding put_at
  put-IsValid = record {
    block = length-set hm.slots (probe hm key p) (used key value) ∙ h.block;
    whole = h.whole;
    path = λ k i j v lt e u. path-put k i j v lt e u;
  }

  -- A slot that the put passed is not the one that it fills.
  apart : (i : ℕ) → accepts (cell hm key i) key ≡ false → (probe hm key p == probe hm key i) ≡ false
  apart i passed = elim (Bool-cases (probe hm key p == probe hm key i)) [
    | inr other ↦ other
    | inl same ↦
        let e : probe hm key p ≡ probe hm key i = ground arith in
        let no : true ≡ false = sym l.stops ∙ ap (λ x. accepts (at hm.slots x) key) e ∙ passed in
        absurd cc
  ]

  -- A lookup of the key itself.
  pub scan-put_key :
      (rounds i : ℕ) → i ≤ p → p < i + rounds → scan rounds (cell after_put key) i key ≡ some value
  unfolding scan look
  scan-put_key zero i q r = absurd (omega arith)
  scan-put_key (suc rounds) i q r = elim (Bool-cases (i == p)) [
    | inl same ↦
        let is_p : i ≡ p = ground arith in
        let there : cell after_put key i ≡ used key value = rw is_p cell_put in
        rw (there, same_string_refl key) refl
    | inr other ↦
        let passed : accepts (cell hm key i) key ≡ false =
          l.passed i (omega arith) (ground arith) in
        let differs : (probe hm key p == probe hm key i) ≡ false = apart i passed in
        let kept : cell after_put key i ≡ cell hm key i = cell-put key i ∙ rw differs refl in
        rw (kept, look_pass (cell hm key i) key _ passed)
          (scan-put_key rounds (i + 1) (ground arith) (omega arith))
  ]

  -- Lookups of another key see what they saw.
  module _ (k : List ℕ) (differs : same_string key k ≡ false) where
    -- Behind an empty slot that nothing with the key stands before, nothing with the key stands.
    misses :
        (e i : ℕ)
        → e < i
        → cell hm k e ≡ empty
        → ((j : ℕ) → j < e → holds (cell hm k j) k ≡ false)
        → holds (cell hm k i) k ≡ false
    unfolding holds
    misses e i lt there fresh = elim (Bool-cases (holds (cell hm k i) k)) [
      | inr other ↦ other
      | inl has ↦
          let (v, q) = holds_used (cell hm k i) k has in
          let (x, w, less, c) = h.path k e i v lt there q in
          let no : same_string k k ≡ false = rw c at (fresh x less) in
          let yes_ = same_string_refl k in absurd cc
    ]

    no_later :
        (rounds i e : ℕ)
        → e < i
        → cell hm k e ≡ empty
        → ((j : ℕ) → j < e → holds (cell hm k j) k ≡ false)
        → scan rounds (cell hm k) i k ≡ none
    unfolding scan
    no_later zero i e lt there fresh = refl
    no_later (suc rounds) i e lt there fresh =
        let later = no_later rounds (i + 1) e (omega arith) there fresh in
        look_miss (cell hm k i) k _ (misses e i lt there fresh) (λ q. later) ∙ later

    open_misses : (s : Slot) → accepts s key ≡ true → holds s k ≡ false
    unfolding accepts holds
    open_misses empty o = refl
    open_misses tombstone o = refl
    open_misses (used k' v) o = let same : k' ≡ key = same_string-eq k' key o in rw same differs

    extend :
        (i : ℕ)
        → ((j : ℕ) → j < i → holds (cell hm k j) k ≡ false)
        → holds (cell hm k i) k ≡ false
        → (j : ℕ) → j < i + 1
        → holds (cell hm k j) k ≡ false
    extend i fresh here j q = elim (Bool-cases (i == j)) [
      | inl same ↦ let e : j ≡ i = ground arith in rw e here
      | inr other ↦ fresh j (ground arith)
    ]

    pub scan-put_other :
        (rounds i : ℕ)
        → ((j : ℕ) → j < i → holds (cell hm k j) k ≡ false)
        → scan rounds (cell after_put k) i k ≡ scan rounds (cell hm k) i k
    unfolding scan look
    scan-put_other zero i fresh = refl
    scan-put_other (suc rounds) i fresh =
        let rest = scan rounds (cell hm k) (i + 1) k in
        elim (Bool-cases (probe hm key p == probe hm k i)) [
          | inl same ↦
              let e : probe hm key p ≡ probe hm k i = ground arith in
              let o : accepts (cell hm k i) key ≡ true =
                sym (ap (λ x. accepts (at hm.slots x) key) e) ∙ l.stops in
              let filled : cell after_put k i ≡ used key value = cell-put k i ∙ rw same refl in
              let misses_here = open_misses (cell hm k i) o in
              let later = scan-put_other rounds (i + 1) (extend i fresh misses_here) in
              rw (filled, differs)
                (later
                  ∙ sym (
                      look_open (cell hm k i) key k rest o differs
                        (λ q. no_later rounds (i + 1) i (omega arith) q fresh)))
          | inr apart_ ↦
              let kept : cell after_put k i ≡ cell hm k i = cell-put k i ∙ rw apart_ refl in
              rw kept (elim (Bool-cases (holds (cell hm k i) k)) [
                | inl has ↦ look_hit (cell hm k i) k _ _ has
                | inr misses_here ↦
                    ap (look (cell hm k i) k)
                      (scan-put_other rounds (i + 1) (extend i fresh misses_here))
              ])
        ]
