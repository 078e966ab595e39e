-- ===== src/OpenAddressing/Scan.antt =====
-- The loops over the probe path of a key, on the slots that they see.
use native.Mathlib.Nat.{mod-lt}
use textbook_c_ds_deep.Prelude.{
  ℕ, zero, suc, ◌+◌, ◌*◌, ◌%◌, ◌^◌, ◌<◌, ◌≡◌, refl, Option, none, some, List, if◌then◌else◌, arith,
  length, same_string,
}
use textbook_c_ds_deep.Run.{Run, ok, same_branch}
use textbook_c_ds_deep.Array.{load-ok}
use textbook_c_ds_deep.OpenAddressing.{
  OaHashMap, ProbeMethod, linear, quadratic, double, Slot, empty, tombstone, used, slot_default,
  probe, h1, h2, get_loop, cell, IsValid,
}

-- One probe of a lookup: what it answers, if `rest` is what the later probes answer.
unfoldable pub look : Slot → List ℕ → Option ℕ → Option ℕ
look empty key rest = none
look tombstone key rest = rest
look (used k v) key rest = if same_string k key then some v else rest

-- What a lookup sees: the value at the first slot with the key, up to an empty slot.
unfoldable pub scan : ℕ → (ℕ → Slot) → ℕ → List ℕ → Option ℕ
scan zero f i key = none
scan (suc rounds) f i key = look (f i) key (scan rounds f (i + 1) key)

pub probe-inside :
    (hm : OaHashMap) (key : List ℕ) (i : ℕ) → IsValid hm → probe hm key i < length hm.slots
unfolding probe
probe-inside hm key i h =
    let positive : 0 < hm.capacity = omega (arith, h.whole) in
    rw (h.block, ← h.whole) (go hm.method positive)
  where
    go :
        (m : ProbeMethod)
        → 0 < hm.capacity
        → (elim m [
          | linear ↦ (h1 key % hm.capacity + i) % 2 ^ 32 % hm.capacity
          | quadratic ↦ (h1 key % hm.capacity + i * i) % 2 ^ 32 % hm.capacity
          | double ↦ (h1 key % hm.capacity + i * h2 key) % 2 ^ 32 % hm.capacity
        ])
          < hm.capacity
    go linear p = mod-lt _ p
    go quadratic p = mod-lt _ p
    go double p = mod-lt _ p

get_step :
    (s : Slot) (key : List ℕ) {m : Run (Option ℕ)} {x : Option ℕ}
    → m ≡ ok x
    → (elim s [
      | empty ↦ ok none
      | tombstone ↦ m
      | used k v ↦ if same_string k key then ok (some v) else m
    ])
      ≡ ok (look s key x)
unfolding look
get_step empty key e = refl
get_step tombstone key e = e
get_step (used k v) key e = same_branch (same_string k key) refl e

pub get_loop-scan :
    (rounds i : ℕ) (hm : OaHashMap) (key : List ℕ)
    → IsValid hm
    → get_loop rounds i hm key ≡ ok (scan rounds (cell hm key) i key)
unfolding get_loop scan
get_loop-scan zero i hm key h = refl
get_loop-scan (suc rounds) i hm key h =
    rw (load-ok hm.slots (probe hm key i) (probe-inside hm key i h))
      (get_step (cell hm key i) key (get_loop-scan rounds (i + 1) hm key h))
