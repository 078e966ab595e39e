-- ===== src/RingBuffer/Size.antt =====
-- `is_power_of_two` and `next_power_of_two`.
use native.Mathlib.Nat.{pow-suc, pow-le-pow_right}
use native.Mathlib.Decide.{dec_lt}
use Prim.Native.Nat.{bit_and}
use textbook_c_ds_deep.Prelude.{
  ℕ, zero, suc, ◌-◌, ◌*◌, ◌%◌, ◌^◌, ◌≤◌, ◌<◌, ◌≡◌, ◌↔◌, ◌⊎◌, inl, inr, refl, sym, true, false, ltb,
  dec64, arith,
}
use textbook_c_ds_deep.Run.{out_of_fuel, Returns, returns, branch}
use textbook_c_ds_deep.Bits.{IsPow, IsPow-double, cleared-IsPow, pow_cleared, pow_pos}
use textbook_c_ds_deep.RingBuffer.{is_power_of_two, next_power_loop, next_power_of_two}

-- On a `size_t` the test holds exactly for the powers of two.
pub is_power_of_two_iff : (n : ℕ) → n < 2 ^ 64 → (is_power_of_two n ≡ true) ↔ IsPow n
unfolding is_power_of_two
is_power_of_two_iff n h = (
  λ e.
      let pos : 0 < n = ground arith in
      let less : dec64 n ≡ n - 1 = omega arith in
      let cleared : bit_and n (dec64 n) ≡ 0 = ground arith in
      cleared-IsPow n pos (rw less at cleared),
  λ (k, e).
      let pos : 0 < n = omega (arith, pow_pos k) in
      let less : dec64 n ≡ n - 1 = omega arith in
      let cleared : bit_and n (n - 1) ≡ 0 = rw e (pow_cleared k) in
      rw (less, cleared) (ground arith),
)

-- The least power of two that is not below `n`, given as the loop finds it.
pub record IsRoundedUp (n p : ℕ) : Type 0 where
  pub power : IsPow p
  pub enough : n ≤ p
  pub least : (p ≡ 1) ⊎ (p < n * 2)

-- `f` shifts are enough to come from `p` to 2^63, the largest power of two below 2^64.
next_power_loop-IsRoundedUp :
    (f n p : ℕ)
    → n ≤ 2 ^ 63
    → IsPow p
    → (p ≡ 1) ⊎ (p < n * 2)
    → 2 ^ 63 ≤ p * 2 ^ f
    → Returns (IsRoundedUp n) (next_power_loop (suc f) n p)
unfolding next_power_loop
next_power_loop-IsRoundedUp zero n p h pow l f =
    let large : 2 ^ 63 ≤ p = omega arith in
    let done : ltb p n ≡ false = ground arith in
    rw done (returns (record { power = pow; enough = omega arith; least = l }))
next_power_loop-IsRoundedUp (suc k) n p h pow l f =
    branch (ltb p n)
      (λ small.
        let fits : p * 2 % 2 ^ 64 ≡ p * 2 = ground arith in
        let room : p * 2 * 2 ^ k ≡ p * 2 ^ suc k = rw (pow-suc 2 k) (omega arith) in
        rw fits (
          next_power_loop-IsRoundedUp k n (p * 2) h (IsPow-double p pow) (inr (ground arith))
            (omega arith)))
      (λ done. returns (record { power = pow; enough = ground arith; least = l }))

-- Up to 2^63 the loop ends at the least power of two that is not below `n`.
pub next_power_of_two-IsRoundedUp :
    (n : ℕ) → n ≤ 2 ^ 63 → Returns (IsRoundedUp n) (next_power_of_two n)
unfolding next_power_of_two
next_power_of_two-IsRoundedUp n h =
    next_power_loop-IsRoundedUp 64 n 1 h (0, refl) (inl refl) (omega arith)

-- Above 2^63 the shifts reach 0, and the loop never ends.
stuck_at_zero : (f n : ℕ) → 0 < n → next_power_loop f n 0 ≡ out_of_fuel
unfolding next_power_loop
stuck_at_zero zero n h = refl
stuck_at_zero (suc f) n h =
    let small : ltb 0 n ≡ true = ground arith in rw small (stuck_at_zero f n h)

next_power_loop-diverges :
    (f j n : ℕ) → j ≤ 63 → 2 ^ 63 < n → next_power_loop f n (2 ^ j) ≡ out_of_fuel
unfolding next_power_loop
next_power_loop-diverges zero j n hj h = refl
next_power_loop-diverges (suc f) j n hj h =
    let below = pow-le-pow_right {n = 2} (omega arith) hj in
    let small : ltb (2 ^ j) n ≡ true = ground arith in
    let double : 2 ^ j * 2 ≡ 2 ^ suc j = sym (pow-suc 2 j) in
    rw small (elim (dec_lt j 63) [
      | yes more ↦
          let below' = pow-le-pow_right {n = 2} (omega arith) more in
          let next : 2 ^ j * 2 % 2 ^ 64 ≡ 2 ^ suc j = omega arith in
          rw next (next_power_loop-diverges f (suc j) n more h)
      | no last ↦
          let top : j ≡ 63 = omega arith in
          let next : 2 ^ j * 2 % 2 ^ 64 ≡ 0 = rw top refl in
          rw next (stuck_at_zero f n (omega arith))
    ])

-- For a request above 2^63 the loop is still running, whatever the bound on its rounds.
pub next_power_loop-out_of_fuel : (fuel n : ℕ) → 2 ^ 63 < n → next_power_loop fuel n 1 ≡ out_of_fuel
next_power_loop-out_of_fuel fuel n h = next_power_loop-diverges fuel 0 n (omega arith) h
