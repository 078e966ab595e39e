-- ===== src/RingBuffer/View.antt =====
-- The queue that a ring stands for: the cells from an absolute index on, taken round the block.
use native.Mathlib.Nat.{mod-lt, mod-eq_of_lt, mod-add-mod, add-zero, mod-eq-sub-mod}
use native.Mathlib.Decide.{dec_lt}
use textbook_c_ds_deep.Prelude.{
  ℕ, zero, suc, ◌+◌, ◌-◌, ◌%◌, ◌≤◌, ◌<◌, ◌≡◌, ◌≢◌, refl, sym, ◌∙◌, ap, ap₂, List, [], ◌∷◌, ◌++◌,
  arith, length, take, set,
}
use textbook_c_ds_deep.Array.{at, at-set, take-suc}
use textbook_c_ds_deep.RingBuffer.{pointer_default}

module _ (buf : List ℕ) (cap : ℕ) where
  -- `n` cells from the index `h`
  abbrev pub view : ℕ → ℕ → List ℕ
  view h zero = []
  view h (suc n) = at buf (h % cap) ∷ view (h + 1) n

  pub length-view : (h n : ℕ) → length (view h n) ≡ n
  length-view h zero = refl
  length-view h (suc n) = ap suc (length-view (h + 1) n)

  -- Only the remainder of the index counts.
  pub view-mod : (h g n : ℕ) → h % cap ≡ g % cap → view h n ≡ view g n
  view-mod h g zero e = refl
  view-mod h g (suc n) e =
      ap₂ ◌∷◌ (ap (at buf) e)
        (view-mod (h + 1) (g + 1) n (rw (← mod-add-mod h cap 1, ← mod-add-mod g cap 1, e)))

  pub view-append : (h n : ℕ) → view h (suc n) ≡ view h n ++ at buf ((h + n) % cap) ∷ []
  view-append h zero = rw add-zero
  view-append h (suc n) =
      let e : h + 1 + n ≡ h + suc n = omega arith in
      ap (◌∷◌ (at buf (h % cap))) (rw (← e) (view-append (h + 1) n))

-- Fewer than `cap` steps round the block do not come back.
apart : (cap h n : ℕ) → n < cap → 0 < n → (h + n) % cap ≢ h % cap
apart cap h n hn pos e =
    let r = h % cap in
    let low : r < cap = mod-lt h (omega arith) in
    let e' : (r + n) % cap ≡ r = mod-add-mod h cap n ∙ e in
    elim (dec_lt (r + n) cap) [
      | yes p ↦ omega (arith, mod-eq_of_lt p)
      | no p ↦ omega (
        arith,
        mod-eq-sub-mod {n = r + n} {m = cap} (omega arith),
        mod-eq_of_lt {n = r + n - cap} {m = cap} (omega arith),
      )
    ]

-- A write at another remainder is not seen.
view-set_ne :
    (buf : List ℕ) (cap h n i x : ℕ)
    → i < length buf
    → ((k : ℕ) → k < n → (h + k) % cap ≢ i)
    → view (set buf i x) cap h n ≡ view buf cap h n
view-set_ne buf cap h zero i x hi ne = refl
view-set_ne buf cap h (suc n) i x hi ne =
    let ne0 : h % cap ≢ i = rw add-zero at (ne 0 (omega arith)) in
    ap₂ ◌∷◌ (ground (arith, at-set buf i (h % cap) x)) (
      view-set_ne buf cap (h + 1) n i x hi
        (λ k p. let e : h + 1 + k ≡ h + suc k = omega arith in rw e (ne (suc k) (omega arith))))

-- Writing the cell behind a view that is not the whole block extends it.
pub view-set :
    (buf : List ℕ) (cap h n x : ℕ)
    → length buf ≡ cap
    → n < cap
    → view (set buf ((h + n) % cap) x) cap h (suc n) ≡ view buf cap h n ++ x ∷ []
view-set buf cap h n x size room =
    let i = (h + n) % cap in
    let inside : i < length buf = rw size (mod-lt (h + n) (omega arith)) in
    let written : at (set buf i x) i ≡ x = ground (arith, at-set buf i i x) in
    rw (view-append (set buf i x) cap h n, written)
      (ap (λ l. l ++ x ∷ [])
        (view-set_ne buf cap h n i x inside λ k p e.
          let far : h + n ≡ h + k + (n - k) = omega arith in
          apart cap (h + k) (n - k) (omega arith) (omega arith) (rw (← far) (sym e))))

-- From index 0 the view is the front of the block.
pub view-take :
    (buf : List ℕ) (cap n : ℕ) → length buf ≡ cap → n ≤ cap → view buf cap 0 n ≡ take n buf
view-take buf cap zero size room = refl
view-take buf cap (suc n) size room =
    let e : 0 + n ≡ n = omega arith in
    let small : n % cap ≡ n = mod-eq_of_lt (omega arith) in
    rw (view-append buf cap 0 n, take-suc n buf (omega arith), e, small)
      (ap (λ l. l ++ at buf n ∷ []) (view-take buf cap n size (omega arith)))
