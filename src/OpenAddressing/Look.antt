-- ===== src/OpenAddressing/Look.antt =====
-- Single probes of a lookup.
use textbook_c_ds_deep.Prelude.{
  ℕ, ◌≡◌, refl, sym, ap, Bool, true, false, Option, none, List, same_string, same_string-eq,
}
use textbook_c_ds_deep.OpenAddressing.{Slot, empty, tombstone, used, slot_default}
use textbook_c_ds_deep.OpenAddressing.Scan.{look}
use textbook_c_ds_deep.OpenAddressing.Land.{accepts}

-- A lookup goes on where a put does.
pub look_pass : (s : Slot) (key : List ℕ) (x : Option ℕ) → accepts s key ≡ false → look s key x ≡ x
unfolding accepts look
look_pass empty key x h = absurd cc
look_pass tombstone key x h = refl
look_pass (used k v) key x h = rw h refl

-- A slot with the key.
unfoldable pub holds : Slot → List ℕ → Bool
holds empty key = false
holds tombstone key = false
holds (used k v) key = same_string k key

-- A lookup ends there, whatever comes later.
pub look_hit :
    (s : Slot) (key : List ℕ) (x y : Option ℕ) → holds s key ≡ true → look s key x ≡ look s key y
unfolding holds look
look_hit empty key x y h = absurd cc
look_hit tombstone key x y h = absurd cc
look_hit (used k v) key x y h = rw h refl

pub holds_used : (s : Slot) (key : List ℕ) → holds s key ≡ true → (v : ℕ) × (s ≡ used key v)
unfolding holds
holds_used empty key h = absurd cc
holds_used tombstone key h = absurd cc
holds_used (used k v) key h = (v, ap (λ x. used x v) (same_string-eq k key h))

-- A lookup goes on where the key is not, unless the slot is empty.
pub look_miss :
    (s : Slot) (key : List ℕ) (x : Option ℕ)
    → holds s key ≡ false
    → (s ≡ empty → x ≡ none)
    → look s key x ≡ x
unfolding holds look
look_miss empty key x h e = sym (e refl)
look_miss tombstone key x h e = refl
look_miss (used k v) key x h e = rw h refl

-- A slot that a put of another key may end at does not end a lookup, unless it is empty.
pub look_open :
    (s : Slot) (key k : List ℕ) (x : Option ℕ)
    → accepts s key ≡ true
    → same_string key k ≡ false
    → (s ≡ empty → x ≡ none)
    → look s k x ≡ x
unfolding accepts look
look_open empty key k x o d e = sym (e refl)
look_open tombstone key k x o d e = refl
look_open (used k' v) key k x o d e =
    let same : k' ≡ key = same_string-eq k' key o in rw (same, d) refl
