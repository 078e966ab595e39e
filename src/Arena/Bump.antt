-- ===== src/Arena/Bump.antt =====
-- What `arena_alloc` gives.
use Prim.Native.Nat.{bit_and}
use native.Mathlib.Nat.{
  div-mul-le_self, lt-div-mul-add, mul-mod_left, div-add-mod, div-div-eq-div-mul, mod-eq_of_lt,
  pow-suc, mul_comm, mul_assoc,
}
use textbook_c_ds_deep.Prelude.{
  ℕ, zero, suc, ◌+◌, ◌-◌, ◌*◌, ◌/◌, ◌%◌, ◌^◌, ◌≤◌, ◌<◌, ◌≡◌, refl, ap, ◌∙◌, inl, inr, false, Option,
  none, some, arith, ltb, Bool-cases,
}
use textbook_c_ds_deep.Bits.{bit_and_digit, bit_and_mask, pow_pos}
use textbook_c_ds_deep.Arena.{Arena, align_up, arena_alloc}

-- Clearing the `k` low bits of a number of `k + w` bits.
bit_and_high : (k w x : ℕ) → x < 2 ^ (k + w) → bit_and x (2 ^ (k + w) - 2 ^ k) ≡ x / 2 ^ k * 2 ^ k
bit_and_high zero w x h =
    let e : 0 + w ≡ w = omega arith in
    let small : x < 2 ^ w = rw e at h in
    let whole : x ≡ x / 2 ^ 0 * 2 ^ 0 = omega arith in
    ap (λ n. bit_and x (2 ^ n - 2 ^ 0)) e ∙ bit_and_mask w x ∙ mod-eq_of_lt small ∙ whole
bit_and_high (suc k) w x h =
    let p = 2 ^ k in
    let t = 2 ^ (k + w) in
    let e : suc k + w ≡ suc (k + w) = omega arith in
    let big : 2 ^ (suc k + w) ≡ t * 2 = ap (λ n. 2 ^ n) e ∙ pow-suc 2 (k + w) in
    let unit : 2 ^ suc k ≡ p * 2 = pow-suc 2 k in
    let half : (t * 2 - p * 2) / 2 ≡ t - p = omega arith in
    let even : (t * 2 - p * 2) % 2 ≡ 0 = omega arith in
    let digit = bit_and_digit x (t * 2 - p * 2) in
    let below : x < t * 2 = rw big at h in
    let rest : bit_and (x / 2) (t - p) ≡ x / 2 / p * p =
      bit_and_high k w (x / 2) (omega (arith, below)) in
    let quot : x / 2 / p ≡ x / (p * 2) =
      div-div-eq-div-mul x 2 p ∙ ap (λ n. x / n) (mul_comm 2 p) in
    let assoc : x / (p * 2) * p * 2 ≡ x / (p * 2) * (p * 2) = mul_assoc (x / (p * 2)) p 2 in
    let rest' : bit_and (x / 2) (t - p) ≡ x / (p * 2) * p = rest ∙ ap (λ n. n * p) quot in
    rw (big, unit) (digit ∙ rw (half, even, rest') (omega (arith, assoc)))

-- For a power of two the alignment rounds up to the next multiple, where nothing wraps.
pub align_up-Multiple :
    (k size : ℕ)
    → k ≤ 63
    → size + 2 ^ k ≤ 2 ^ 64
    → align_up size (2 ^ k) ≡ (size + (2 ^ k - 1)) / 2 ^ k * 2 ^ k
unfolding align_up
align_up-Multiple k size h room =
    let pos = pow_pos k in
    let e : k + (64 - k) ≡ 64 = omega arith in
    let less : (2 ^ k + (2 ^ 64 - 1)) % 2 ^ 64 ≡ 2 ^ k - 1 = omega (arith, pos, room) in
    let sum : (size + (2 ^ k - 1)) % 2 ^ 64 ≡ size + (2 ^ k - 1) = omega (arith, pos, room) in
    let mask : 2 ^ 64 - 1 - (2 ^ k - 1) ≡ 2 ^ 64 - 2 ^ k = omega (arith, pos) in
    let high = bit_and_high k (64 - k) (size + (2 ^ k - 1)) (rw e (omega (arith, pos, room))) in
    rw (less, sum, mask) (rw e at high)

base_aligned : (b p a : ℕ) → b % a ≡ 0 → p % a ≡ 0 → (b + p) % a ≡ 0
base_aligned b p a e f =
    let whole : b ≡ b / a * a = omega (arith, div-add-mod b a, e) in
    let part : p ≡ p / a * a = omega (arith, div-add-mod p a, f) in
    let sum : b + p ≡ (b / a + p / a) * a = omega (arith, whole, part) in
    rw sum (mul-mod_left (b / a + p / a) a)

-- What an allocation gives: NULL, when the block does not fit behind the mark, or an aligned block
-- between the mark and the end of the arena, behind which the mark then stands.
pub Granted : Arena → ℕ → ℕ → Option ℕ × Arena → Type 0
Granted arena size align (none, arena') =
    (arena' ≡ arena) × (arena.capacity < align_up arena.used align + size)
Granted arena size align (some p, arena') =
    (p % align ≡ 0)
    × (arena.memory + arena.used ≤ p)
    × (p < arena.memory + arena.used + align)
    × (arena.memory + arena'.used ≡ p + size)
    × (arena'.used ≤ arena.capacity)
    × (arena'.capacity ≡ arena.capacity)

-- For an alignment that is a power of two and that the address of the arena has, and where the sums do
-- not wrap, `arena_alloc` gives NULL exactly when the block does not fit, and otherwise a block at an
-- aligned address that no earlier one overlaps.
pub arena_alloc-Granted :
    (arena : Arena) (size k : ℕ)
    → k ≤ 63
    → arena.memory % 2 ^ k ≡ 0
    → arena.used ≤ arena.capacity
    → arena.capacity + 2 ^ k + size < 2 ^ 64
    → Granted arena size (2 ^ k) (arena_alloc arena size (2 ^ k))
unfolding arena_alloc Granted
arena_alloc-Granted arena size k h at_start inside room =
    let a = 2 ^ k in
    let p = align_up arena.used a in
    let up : p ≡ (arena.used + (a - 1)) / a * a =
      align_up-Multiple k arena.used h (omega (arith, inside, room)) in
    let pos = pow_pos k in
    let above = div-mul-le_self (arena.used + (a - 1)) a in
    let x = arena.used + (a - 1) in
    let below : x < x / a * a + a = lt-div-mul-add pos in
    let exact : (p + size) % 2 ^ 64 ≡ p + size = omega (arith, up, above, inside, room) in
    elim (Bool-cases (ltb arena.capacity (p + size))) [
      | inl full ↦ rw (exact, full) (refl, ground arith)
      | inr fits ↦
          rw (exact, fits)
            (
              base_aligned arena.memory p a at_start (rw up (mul-mod_left _ a)),
              omega (arith, up, below, pos),
              omega (arith, up, above, pos),
              omega arith,
              ground arith,
              refl,
            )
    ]

-- Where the sum of mark and size wraps and the rest is small, `arena_alloc` gives a block that ends
-- past the arena.
pub arena_alloc-wraps :
    (arena : Arena) (size align : ℕ)
    → arena.capacity < 2 ^ 64
    → 2 ^ 64 ≤ align_up arena.used align + size
    → align_up arena.used align + size ≤ 2 ^ 64 + arena.capacity
    → ((arena_alloc arena size align).0 ≡ some (arena.memory + align_up arena.used align))
      × (arena.capacity < align_up arena.used align + size)
unfolding arena_alloc
arena_alloc-wraps arena size align small over rest =
    let next : (align_up arena.used align + size) % 2 ^ 64
        ≡ align_up arena.used align + size - 2 ^ 64 =
      omega (arith, over, rest, small) in
    let passes : ltb arena.capacity (align_up arena.used align + size - 2 ^ 64) ≡ false =
      ground arith in
    (rw (next, passes) refl, omega (arith, over, small))
