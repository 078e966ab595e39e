-- ===== src/SlabCache/Bitmap.antt =====
-- The bits of a bitmap after a slot is set or cleared, and how many are clear.
use Prim.Native.Nat.{bit_and, bit_or, min, max, digits, bit_or-bitwise}
use native.Mathlib.Nat.{div-div-eq-div-mul, pow-suc, pow-le-pow_right, mul_comm}
use textbook_c_ds_deep.Prelude.{
  ℕ, zero, suc, ◌+◌, ◌-◌, ◌*◌, ◌/◌, ◌%◌, ◌^◌, ◌≤◌, ◌<◌, ◌≡◌, refl, sym, ap, ◌∙◌, arith, true, false,
  ◌==◌, if◌then◌else◌, inl, inr, Bool-cases,
}
use textbook_c_ds_deep.Bits.{bit_and_digit, pow_pos}
use textbook_c_ds_deep.SlabCache.{used_bit}

-- The recursion of `bit_or` does not depend on its bound.
digits_bound : (n m a b : ℕ) → a ≤ n → a ≤ m → digits (λ c. c) max n a b ≡ digits (λ c. c) max m a b
digits_bound zero zero a b p q = refl
digits_bound zero (suc m) zero b p q = refl
digits_bound (suc n) zero zero b p q = refl
digits_bound (suc n) (suc m) zero b p q = refl
digits_bound (suc n) (suc m) (suc a) b p q =
    omega (arith, digits_bound n m (suc a / 2) (b / 2) (omega arith) (omega arith))
digits_bound n m a b p q = absurd (omega arith)

-- One binary digit of `|`.
bit_or_digit : (a b : ℕ) → bit_or a b ≡ bit_or (a / 2) (b / 2) * 2 + max (a % 2) (b % 2)
bit_or_digit zero b = omega (arith, bit_or-bitwise 0 b, bit_or-bitwise 0 (b / 2))
bit_or_digit (suc a) b = omega (
  arith,
  bit_or-bitwise (suc a) b,
  bit_or-bitwise (suc a / 2) (b / 2),
  digits_bound a (suc a / 2) (suc a / 2) (b / 2) (omega arith) (omega arith),
)

-- The bit above the lowest is one of the half.
used_bit-suc : (x k : ℕ) → used_bit x (suc k) ≡ used_bit (x / 2) k
used_bit-suc x k =
    let unit : 2 ^ suc k ≡ 2 * 2 ^ k = pow-suc 2 k ∙ mul_comm (2 ^ k) 2 in
    ap (λ n. x / n % 2) unit ∙ ap (λ n. n % 2) (sym (div-div-eq-div-mul x 2 (2 ^ k)))

used_bit-zero : (x : ℕ) → used_bit x 0 ≡ x % 2
used_bit-zero x = omega arith

used_bit-bit_or : (k x y : ℕ) → used_bit (bit_or x y) k ≡ max (used_bit x k) (used_bit y k)
used_bit-bit_or zero x y = omega (arith, bit_or_digit x y)
used_bit-bit_or (suc k) x y =
    let half : bit_or x y / 2 ≡ bit_or (x / 2) (y / 2) = omega (arith, bit_or_digit x y) in
    rw (used_bit-suc (bit_or x y) k, used_bit-suc x k, used_bit-suc y k, half)
      (used_bit-bit_or k (x / 2) (y / 2))

used_bit-bit_and : (k x y : ℕ) → used_bit (bit_and x y) k ≡ min (used_bit x k) (used_bit y k)
used_bit-bit_and zero x y = omega (arith, bit_and_digit x y)
used_bit-bit_and (suc k) x y =
    let half : bit_and x y / 2 ≡ bit_and (x / 2) (y / 2) = omega (arith, bit_and_digit x y) in
    rw (used_bit-suc (bit_and x y) k, used_bit-suc x k, used_bit-suc y k, half)
      (used_bit-bit_and k (x / 2) (y / 2))

used_bit-none : (k : ℕ) → used_bit 0 k ≡ 0
used_bit-none zero = refl
used_bit-none (suc k) = used_bit-suc 0 k ∙ used_bit-none k

-- A power of two has one bit.
used_bit-pow : (s k : ℕ) → used_bit (2 ^ s) k ≡ (if k == s then 1 else 0)
used_bit-pow zero zero = refl
used_bit-pow zero (suc k) =
    let off : (suc k == 0) ≡ false = ground arith in rw off (used_bit-suc 1 k ∙ used_bit-none k)
used_bit-pow (suc s) zero =
    let off : (0 == suc s) ≡ false = ground arith in rw off (omega (arith, pow-suc 2 s))
used_bit-pow (suc s) (suc k) =
    let half : 2 ^ suc s / 2 ≡ 2 ^ s = omega (arith, pow-suc 2 s) in
    rw (used_bit-suc (2 ^ suc s) k, half) (grind (arith, used_bit-pow s k))

used_bit-ones : (w k : ℕ) → k < w → used_bit (2 ^ w - 1) k ≡ 1
used_bit-ones zero k h = absurd (omega arith)
used_bit-ones (suc w) zero h = omega (arith, pow-suc 2 w, pow_pos w)
used_bit-ones (suc w) (suc k) h =
    let half : (2 ^ suc w - 1) / 2 ≡ 2 ^ w - 1 = omega (arith, pow-suc 2 w, pow_pos w) in
    rw (used_bit-suc (2 ^ suc w - 1) k, half) (used_bit-ones w k (omega arith))

-- The mask of `~(1 << s)` on `w` bits.
used_bit-mask :
    (w s k : ℕ) → s < w → k < w → used_bit (2 ^ w - 1 - 2 ^ s) k ≡ (if k == s then 0 else 1)
used_bit-mask zero s k h j = absurd (omega arith)
used_bit-mask (suc w) zero zero h j = omega (arith, pow-suc 2 w, pow_pos w)
used_bit-mask (suc w) zero (suc k) h j =
    let half : (2 ^ suc w - 1 - 2 ^ 0) / 2 ≡ 2 ^ w - 1 = omega (arith, pow-suc 2 w, pow_pos w) in
    let off : (suc k == 0) ≡ false = ground arith in
    rw (off, used_bit-suc (2 ^ suc w - 1 - 2 ^ 0) k, half) (used_bit-ones w k (omega arith))
used_bit-mask (suc w) (suc s) zero h j =
    let room : 2 ^ suc s ≤ 2 ^ w = pow-le-pow_right (omega arith) (omega arith) in
    let off : (0 == suc s) ≡ false = ground arith in
    rw off (omega (arith, room, pow-suc 2 w, pow-suc 2 s, pow_pos w))
used_bit-mask (suc w) (suc s) (suc k) h j =
    let half : (2 ^ suc w - 1 - 2 ^ suc s) / 2 ≡ 2 ^ w - 1 - 2 ^ s =
      omega (arith, pow-suc 2 w, pow-suc 2 s) in
    rw (used_bit-suc (2 ^ suc w - 1 - 2 ^ suc s) k, half)
      (grind (arith, used_bit-mask w s k (omega arith) (omega arith)))

-- `b` is `a` with the slot `s` now in use, as far as the first `n` slots go.
pub record Taken (n s a b : ℕ) : Type 0 where
  pub before : used_bit a s ≡ 0
  pub after : used_bit b s ≡ 1
  pub others : (k : ℕ) → k < n → (k == s) ≡ false → used_bit b k ≡ used_bit a k

-- `slab->bitmap |= (1ULL << slot)`
pub bit_or-Taken : (n s x : ℕ) → used_bit x s ≡ 0 → Taken n s x (bit_or x (2 ^ s))
bit_or-Taken n s x free = record {
  before = free;
  after =
      let here : (s == s) ≡ true = ground arith in
      used_bit-bit_or s x (2 ^ s) ∙ rw (free, used_bit-pow s s, here) refl;
  others = λ k h off. used_bit-bit_or k x (2 ^ s) ∙ rw (used_bit-pow s k, off) (omega arith);
}

-- `slab->bitmap &= ~(1ULL << slot)`, on the 64 bits of the bitmap
pub bit_and-Taken :
    (n s x : ℕ) → n ≤ 64 → s < n → used_bit x s ≡ 1 → Taken n s (bit_and x (2 ^ 64 - 1 - 2 ^ s)) x
bit_and-Taken n s x few h used = record {
  before =
      let here : (s == s) ≡ true = ground arith in
      used_bit-bit_and s x (2 ^ 64 - 1 - 2 ^ s)
      ∙ rw (used, used_bit-mask 64 s s (omega arith) (omega arith), here) refl;
  after = used;
  others = λ k j off.
      let bit : used_bit x k < 2 = omega arith in
      sym (
        used_bit-bit_and k x (2 ^ 64 - 1 - 2 ^ s)
        ∙ rw (used_bit-mask 64 s k (omega arith) (omega arith), off) (omega (arith, bit)));
}

-- How many of the first slots are free.
unfoldable pub clear : ℕ → ℕ → ℕ
clear zero b = 0
clear (suc n) b = clear n b + (1 - used_bit b n)

clear_same : (n a b : ℕ) → ((k : ℕ) → k < n → used_bit b k ≡ used_bit a k) → clear n a ≡ clear n b
unfolding clear
clear_same zero a b e = refl
clear_same (suc n) a b e =
    omega (arith, e n (omega arith), clear_same n a b (λ k h. e k (omega arith)))

pub clear-Taken : (n s a b : ℕ) → s < n → Taken n s a b → clear n a ≡ clear n b + 1
unfolding clear
clear-Taken zero s a b h t = absurd (omega arith)
clear-Taken (suc n) s a b h t = elim (Bool-cases (n == s)) [
  | inl here ↦
      let same : n ≡ s = ground (arith, here) in
      let below : clear n a ≡ clear n b =
        clear_same n a b (λ k j. t.others k (omega arith) (ground (arith, same, j))) in
      let was : used_bit a n ≡ 0 = rw same t.before in
      let now : used_bit b n ≡ 1 = rw same t.after in omega (arith, below, was, now)
  | inr other ↦
      let rest =
        clear-Taken n s a b (ground (arith, other, h)) (record {
          before = t.before;
          after = t.after;
          others = λ k j. t.others k (omega arith);
        }) in
      omega (arith, rest, t.others n (omega arith) other)
]

pub clear_some : (n b k : ℕ) → k < n → used_bit b k ≡ 0 → 0 < clear n b
unfolding clear
clear_some zero b k h e = absurd (omega arith)
clear_some (suc n) b k h e = elim (Bool-cases (k == n)) [
  | inl here ↦ let same : n ≡ k = ground (arith, here) in rw same (omega (arith, e))
  | inr other ↦ omega (arith, clear_some n b k (ground (arith, other, h)) e)
]

-- Where every slot is in use, none is free.
pub clear_none : (n b : ℕ) → ((k : ℕ) → k < n → used_bit b k ≡ 1) → clear n b ≡ 0
unfolding clear
clear_none zero b u = refl
clear_none (suc n) b u = omega (arith, u n (omega arith), clear_none n b (λ k h. u k (omega arith)))

pub clear_all : (n : ℕ) → clear n 0 ≡ n
unfolding clear
clear_all zero = refl
clear_all (suc n) = omega (arith, used_bit-none n, clear_all n)
