-- ===== src/Bits.antt =====
-- `&` on unsigned words, as the programs use it: masks of low bits and the test for a power of two.
use native.Mathlib.Nat.{
  mod_self, mod-mod_of_dvd, pow-le-pow_right, dvd_refl, dvd-mul_right_of_dvd, add-mul-mod_self_left,
  mod-eq_of_lt, mod-lt, div-add-mod, pow-suc,
}
use native.Mathlib.Decide.{dec_lt}
use Prim.Native.Nat.{◌∣◌, min, bit_and, digits, bit_and-bitwise}
use textbook_c_ds_deep.Prelude.{
  ℕ, zero, suc, ◌+◌, ◌-◌, ◌*◌, ◌/◌, ◌%◌, ◌^◌, ◌≤◌, ◌<◌, ◌≡◌, refl, ◌∙◌, arith,
}

-- The digit recursion that `bit_and` stands for does not depend on its bound.
digits_bound :
    (n m a b : ℕ) → a ≤ n → a ≤ m → digits (λ c. zero) min n a b ≡ digits (λ c. zero) min m a b
digits_bound zero zero a b p q = refl
digits_bound zero (suc m) zero b p q = refl
digits_bound (suc n) zero zero b p q = refl
digits_bound (suc n) (suc m) zero b p q = refl
digits_bound (suc n) (suc m) (suc a) b p q =
    omega (arith, digits_bound n m (suc a / 2) (b / 2) (omega arith) (omega arith))
digits_bound n m a b p q = absurd (omega arith)

-- One binary digit of `&`.
pub bit_and_digit : (a b : ℕ) → bit_and a b ≡ bit_and (a / 2) (b / 2) * 2 + min (a % 2) (b % 2)
bit_and_digit zero b = omega (arith, bit_and-bitwise 0 b, bit_and-bitwise 0 (b / 2))
bit_and_digit (suc a) b = omega (
  arith,
  bit_and-bitwise (suc a) b,
  bit_and-bitwise (suc a / 2) (b / 2),
  digits_bound a (suc a / 2) (suc a / 2) (b / 2) (omega arith) (omega arith),
)

bit_and-zero_below : (n a : ℕ) → a ≤ n → bit_and a 0 ≡ 0
bit_and-zero_below n zero h = refl
bit_and-zero_below zero (suc a) h = absurd (omega arith)
bit_and-zero_below (suc n) (suc a) h =
    omega (arith, bit_and_digit (suc a) 0, bit_and-zero_below n (suc a / 2) (omega arith))

bit_and_self_below : (n a : ℕ) → a ≤ n → bit_and a a ≡ a
bit_and_self_below n zero h = refl
bit_and_self_below zero (suc a) h = absurd (omega arith)
bit_and_self_below (suc n) (suc a) h =
    omega (arith, bit_and_digit (suc a) (suc a), bit_and_self_below n (suc a / 2) (omega arith))

pub pow_pos : (k : ℕ) → 0 < 2 ^ k
pow_pos zero = omega arith
pow_pos (suc k) = omega (arith, pow_pos k, pow-suc 2 k)

-- A remainder by `2 * p` in terms of one by `p`.
mod_double : (q p r : ℕ) → 0 < p → r < 2 → (q * 2 + r) % (p * 2) ≡ q % p * 2 + r
mod_double q p r hp hr =
    let low : q % p * 2 + r < p * 2 = omega (arith, mod-lt q hp) in
    let split : q * 2 + r ≡ q % p * 2 + r + p * 2 * (q / p) = grind (arith, div-add-mod q p) in
    rw split (add-mul-mod_self_left (q % p * 2 + r) (p * 2) (q / p) ∙ mod-eq_of_lt low)

-- `a & (2^k - 1)` is the remainder by `2^k`.
pub bit_and_mask : (k a : ℕ) → bit_and a (2 ^ k - 1) ≡ a % 2 ^ k
bit_and_mask zero a = omega (arith, bit_and-zero_below a a)
bit_and_mask (suc k) a =
    let m = 2 ^ suc k - 1 in
    let double : 2 ^ suc k ≡ 2 ^ k * 2 = pow-suc 2 k in
    let half : m / 2 ≡ 2 ^ k - 1 = omega (arith, pow_pos k) in
    let odd : m % 2 ≡ 1 = omega (arith, pow_pos k) in
    let whole : a / 2 * 2 + a % 2 ≡ a = omega arith in
    let rest : bit_and (a / 2) (m / 2) ≡ a / 2 % 2 ^ k = rw half (bit_and_mask k (a / 2)) in
    let split : a % 2 ^ suc k ≡ a / 2 % 2 ^ k * 2 + a % 2 =
      rw double (rw whole at (mod_double (a / 2) (2 ^ k) (a % 2) (pow_pos k) (omega arith))) in
    rw (bit_and_digit a m, rest, odd, split) (omega arith)

-- A number is a power of two.
abbrev pub IsPow : ℕ → Type 0
IsPow n = (k : ℕ) × (n ≡ 2 ^ k)

pub IsPow-double : (m : ℕ) → IsPow m → IsPow (m * 2)
IsPow-double m (k, e) = (suc k, rw (e, pow-suc))

-- `n & (n - 1)` clears the lowest bit: it is 0 for the powers of two alone.
cleared-IsPow_below : (f n : ℕ) → n ≤ f → 0 < n → bit_and n (n - 1) ≡ 0 → IsPow n
cleared-IsPow_below zero n h p e = absurd (omega arith)
cleared-IsPow_below (suc f) n h p e = elim (dec_lt 0 (n % 2)) [
  | yes odd ↦
      let half : (n - 1) / 2 ≡ n / 2 = omega arith in
      let same : bit_and (n / 2) ((n - 1) / 2) ≡ n / 2 =
        rw half (bit_and_self_below (n / 2) (n / 2) (omega arith)) in
      (0, omega (arith, bit_and_digit n (n - 1), same))
  | no even ↦
      let half : (n - 1) / 2 ≡ n / 2 - 1 = omega arith in
      let cleared : bit_and (n / 2) ((n - 1) / 2) ≡ 0 = omega (arith, bit_and_digit n (n - 1)) in
      let zero_half : bit_and (n / 2) (n / 2 - 1) ≡ 0 = rw half at cleared in
      let whole : n / 2 * 2 ≡ n = omega arith in
      rw whole at
        (IsPow-double (n / 2) (cleared-IsPow_below f (n / 2) (omega arith) (omega arith) zero_half))
]

pub cleared-IsPow : (n : ℕ) → 0 < n → bit_and n (n - 1) ≡ 0 → IsPow n
cleared-IsPow n = cleared-IsPow_below n n (omega arith)

pub pow_cleared : (k : ℕ) → bit_and (2 ^ k) (2 ^ k - 1) ≡ 0
pow_cleared k = bit_and_mask k (2 ^ k) ∙ mod_self (2 ^ k)

-- `&` with the mask is the remainder by a capacity that is a power of two.
pub masked_mod : (cap mask x : ℕ) → IsPow cap → mask ≡ cap - 1 → bit_and x mask ≡ x % cap
masked_mod cap mask x (k, e) m = rw (m, e) (bit_and_mask k x)

pow-dvd : (j k : ℕ) → 2 ^ k ∣ 2 ^ (k + j)
pow-dvd zero k = let e : k + 0 ≡ k = omega arith in rw e (dvd_refl (2 ^ k))
pow-dvd (suc j) k =
    let e : k + suc j ≡ suc (k + j) = omega arith in
    rw (e, pow-suc) (dvd-mul_right_of_dvd (2 ^ k) (pow-dvd j k) 2)

-- An index of a `size_t` may wrap: the remainder by the capacity stays.
pub wrap_mod : (cap x : ℕ) → IsPow cap → cap ≤ 2 ^ 60 → x % 2 ^ 64 % cap ≡ x % cap
wrap_mod cap x (k, e) h = elim (dec_lt k 64) [
  | yes p ↦
      let far : k + (64 - k) ≡ 64 = omega arith in
      rw e (mod-mod_of_dvd (2 ^ k) x (rw far at (pow-dvd (64 - k) k)))
  | no p ↦
      let large = pow-le-pow_right {n = 2} (omega arith) {i = 64} {j = k} (omega arith) in
      absurd (omega arith)
]
