-- ===== src/OpenAddressing/Land.antt =====
-- Where a put of a key ends.
use textbook_c_ds_deep.Prelude.{
  ℕ, zero, suc, ◌+◌, ◌≤◌, ◌<◌, ◌≡◌, refl, Bool, true, false, List, ◌==◌, if◌then◌else◌, arith, set,
  same_string, same_string-eq, inl, inr, Bool-cases,
}
use textbook_c_ds_deep.Run.{Run, Returns, returns, branch, weaken}
use textbook_c_ds_deep.Array.{load-ok, store-ok}
use textbook_c_ds_deep.OpenAddressing.{
  OaHashMap, Slot, empty, tombstone, used, slot_default, probe, put_loop, copied, cell, IsValid,
}
use textbook_c_ds_deep.OpenAddressing.Scan.{probe-inside}

-- A slot where a put of the key ends.
unfoldable pub accepts : Slot → List ℕ → Bool
accepts empty key = true
accepts tombstone key = true
accepts (used k v) key = same_string k key

-- From probe `i` on, `p` is the first at which a put of the key ends.
pub record Lands (f : ℕ → Slot) (key : List ℕ) (i p : ℕ) : Type 0 where
  pub after : i ≤ p
  pub passed : (j : ℕ) → i ≤ j → j < p → accepts (f j) key ≡ false
  pub stops : accepts (f p) key ≡ true

unfoldable pub put_at : OaHashMap → List ℕ → ℕ → ℕ → ℕ → OaHashMap
put_at hm key value p n = record hm {
  slots = set hm.slots (probe hm key p) (used key value);
  size = n;
}

-- How the loop ends: with the table as it was, or with the key at the first probe that is open.
pub data PutEnds (hm : OaHashMap) (key : List ℕ) (value stop i : ℕ)
    : Bool × OaHashMap → Type 0 where
  refused : PutEnds hm key value stop i (false, hm)
  placed :
      (p n : ℕ)
      → Lands (cell hm key) key i p
      → p < stop
      → PutEnds hm key value stop i (true, put_at hm key value p n)

pub put_step :
    {P : Bool × OaHashMap → Type 0} {fill rest : Run (Bool × OaHashMap)}
    (update : List ℕ → Run (Bool × OaHashMap)) (s : Slot) (key : List ℕ)
    → (accepts s key ≡ true → Returns P fill)
    → (accepts s key ≡ true → Returns P (update key))
    → (accepts s key ≡ false → Returns P rest)
    → Returns P (elim s [
      | empty ↦ fill
      | tombstone ↦ fill
      | used k v ↦ if same_string k key then update k else rest
    ])
unfolding accepts
put_step up empty key f u r = f refl
put_step up tombstone key f u r = f refl
put_step up (used k v) key f u r =
    branch (same_string k key) (λ e. rw (same_string-eq k key e) (u e)) r

pub Lands-here : (f : ℕ → Slot) (key : List ℕ) (i : ℕ) → accepts (f i) key ≡ true → Lands f key i i
Lands-here f key i h = record {
  after = omega arith;
  passed = λ j p q. absurd (omega arith);
  stops = h;
}

pub Lands-later :
    (f : ℕ → Slot) (key : List ℕ) (i p : ℕ)
    → accepts (f i) key ≡ false
    → Lands f key (i + 1) p
    → Lands f key i p
Lands-later f key i p h l = record {
  after = omega (arith, l.after);
  passed = λ j q r. elim (Bool-cases (i == j)) [
    | inl same ↦ let e : j ≡ i = ground arith in rw e h
    | inr other ↦ l.passed j (ground arith) r
  ];
  stops = l.stops;
}

pub PutEnds-later :
    (hm : OaHashMap) (key : List ℕ) (value stop i : ℕ) (out : Bool × OaHashMap)
    → accepts (cell hm key i) key ≡ false
    → PutEnds hm key value stop (i + 1) out
    → PutEnds hm key value stop i out
PutEnds-later hm key value stop i _ h refused = refused
PutEnds-later hm key value stop i _ h (placed p n l lt) =
    placed p n (Lands-later (cell hm key) key i p h l) lt

pub put_loop-PutEnds :
    (rounds i stop : ℕ) (hm : OaHashMap) (key : List ℕ) (value : ℕ)
    → IsValid hm
    → i + rounds ≡ stop
    → Returns (PutEnds hm key value stop i) (put_loop rounds i hm key value true)
unfolding put_loop copied put_at
put_loop-PutEnds zero i stop hm key value h total = returns refused
put_loop-PutEnds (suc rounds) i stop hm key value h total =
    let idx = probe hm key i in
    let inside = probe-inside hm key i h in
    rw (load-ok hm.slots idx inside) (
      put_step _ (cell hm key i) key
        (λ o.
          rw (store-ok hm.slots idx (used key value) inside)
            (returns (placed i (hm.size + 1) (Lands-here (cell hm key) key i o) (omega arith))))
        (λ o.
          rw (store-ok hm.slots idx (used key value) inside)
            (returns (placed i hm.size (Lands-here (cell hm key) key i o) (omega arith))))
        (λ c.
          weaken (put_loop-PutEnds rounds (i + 1) stop hm key value h (omega arith))
            λ out e. PutEnds-later hm key value stop i out c e))
