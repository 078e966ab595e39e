-- ===== src/OpenAddressing/Put.antt =====
-- `oa_put`: what the table answers after it.
use textbook_c_ds_deep.Prelude.{
  ℕ, zero, suc, ◌*◌, ◌/◌, ◌≡◌, refl, sym, ap, ◌∙◌, Bool, true, ◌&&◌, some, List, leb, if◌then◌else◌,
  arith, replicate, same_string, same_string-eq, inl, inr, Bool-cases,
}
use textbook_c_ds_deep.Run.{ok, Returns, returns, branch, weaken}
use textbook_c_ds_deep.Array.{at}
use textbook_c_ds_deep.OpenAddressing.{
  OaHashMap, ProbeMethod, oa_init, empty, used, max_size, slot_default, probe, oa_get, oa_put, cell,
  IsValid,
}
use textbook_c_ds_deep.OpenAddressing.Scan.{scan, get_loop-scan}
use textbook_c_ds_deep.OpenAddressing.Land.{put_at, PutEnds, refused, placed, put_loop-PutEnds}
use textbook_c_ds_deep.OpenAddressing.Kept.{put-IsValid, scan-put_key, scan-put_other}

at-replicate : (n i : ℕ) → at (replicate n empty) i ≡ empty
unfolding at
at-replicate zero i = refl
at-replicate (suc n) zero = refl
at-replicate (suc n) (suc i) = at-replicate n i

pub oa_init-IsValid : (method : ProbeMethod) → IsValid (oa_init method)
unfolding oa_init
oa_init-IsValid method = record {
  block = refl;
  whole = refl;
  path = λ key i j v lt e u.
      let hole = at-replicate max_size (probe (oa_init method) key j) in
      let no : used key v ≡ empty = sym u ∙ hole in absurd cc;
}

-- What a put leaves: a valid table that answers as before, save for the key when the put is accepted.
abbrev pub Stored : OaHashMap → List ℕ → ℕ → Bool × OaHashMap → Type 0
Stored hm key value (done, hm') =
    IsValid hm'
    × ((k : List ℕ)
        → oa_get hm' k ≡ (if done && same_string key k then ok (some value) else oa_get hm k))

PutEnds-Stored :
    (hm : OaHashMap) (key : List ℕ) (value : ℕ) (out : Bool × OaHashMap)
    → IsValid hm
    → PutEnds hm key value hm.capacity 0 out
    → Stored hm key value out
unfolding oa_get put_at
PutEnds-Stored hm key value _ h refused = (h, λ k. refl)
PutEnds-Stored hm key value _ h (placed p n l lt) = (
  put-IsValid hm key value p n h l,
  λ k.
      let hm' = put_at hm key value p n in
      let new = get_loop-scan hm.capacity 0 hm' k (put-IsValid hm key value p n h l) in
      let old = get_loop-scan hm.capacity 0 hm k h in
      elim (Bool-cases (same_string key k)) [
        | inl same ↦
            let k_is : k ≡ key = sym (same_string-eq key k same) in
            let hit =
              scan-put_key hm key value p n h l hm.capacity 0 (omega arith) (omega (arith, lt)) in
            rw same (new ∙ ap (λ y. ok (scan hm.capacity (cell hm' y) 0 y)) k_is ∙ ap ok hit)
        | inr differs ↦
            let kept =
              scan-put_other hm key value p n h l k differs hm.capacity 0
                (λ j q. absurd (omega arith)) in
            rw differs (new ∙ ap ok kept ∙ sym old)
      ],
)

-- On a valid table, and where strdup finds memory, `oa_put` returns a valid table. If it answers true
-- a lookup of the key gives the value and one of any other key what it gave before; if it answers
-- false every lookup gives what it gave before.
pub oa_put-Stored :
    (hm : OaHashMap) (key : List ℕ) (value : ℕ)
    → IsValid hm
    → Returns (Stored hm key value) (oa_put hm key value true)
unfolding oa_put
oa_put-Stored hm key value h =
    branch (leb (hm.capacity * 2 / 3) hm.size) (λ full. returns (h, λ k. refl))
      (λ room.
        weaken (put_loop-PutEnds hm.capacity 0 hm.capacity hm key value h (omega arith))
          λ out e. PutEnds-Stored hm key value out h e)
