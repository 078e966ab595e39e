-- ===== src/Stack/Postfix/Digits.antt =====
-- The digits of a number in a buffer with room.
use textbook_c_ds_deep.Prelude.{
  ℕ, suc, ◌+◌, ◌*◌, ◌^◌, ◌≤◌, ◌<◌, ◌≡◌, refl, Bool, true, List, [], ◌∷◌, arith, ltb, dec64, length,
  set, length-set, inl, inr, Bool-cases,
}
use textbook_c_ds_deep.Run.{Returns, returns, weaken}
use textbook_c_ds_deep.Array.{store-ok}
use textbook_c_ds_deep.Stack.Postfix.{Conversion, write, digits_loop, isdigit}
use textbook_c_ds_deep.Stack.Postfix.Room.{char_default, Fits, dec64_minus}

module _ (size : ℕ) where
  -- What the digits leave: a rest of the string, and room for it and for `k` bytes more, and one more
  -- for every digit.
  pub record Digits (p : List ℕ) (k : ℕ) (out : Bool × List ℕ × Conversion) : Type 0 where
    pub all : out.0 ≡ true
    pub shorter : length out.1 ≤ length p
    pub fits : Fits size (length out.1) out.2
    pub slack : out.2.pos + 2 * out.2.op_stack.count + length out.1 + length p + 2 + k ≤ size

  -- One digit.
  module _ (d : ℕ) (p : List ℕ) (c : Conversion) (h : 2 ≤ size) (w : size < 2 ^ 64)
      (f : Fits size (suc (length p)) c) where
    unfoldable pub after_digit : Conversion
    after_digit = record c { result = set c.result c.pos d; pos = c.pos + 1 }

    pub after_digit-Fits : Fits size (length p) after_digit
    unfolding after_digit
    after_digit-Fits = record {
      valid = f.valid;
      block = rw (length-set c.result c.pos d) f.block;
      budget = omega (arith, f.budget);
      few = omega (arith, f.few);
    }

    pub digits_loop-digit :
        isdigit d ≡ true
        → digits_loop (dec64 size) (d ∷ p) c ≡ digits_loop (dec64 size) p after_digit
    unfolding digits_loop write after_digit
    digits_loop-digit digit =
        let free : ltb c.pos (dec64 size) ≡ true =
          rw (dec64_minus size h w) (ground (arith, f.budget)) in
        let inside : c.pos < length c.result = omega (arith, f.block, f.budget) in
        rw (digit, free, store-ok c.result c.pos d inside) refl

  pub digits_loop-Digits :
      (p : List ℕ) (c : Conversion) (k : ℕ)
      → 2 ≤ size
      → size < 2 ^ 64
      → Fits size (length p) c
      → c.pos + 2 * c.op_stack.count + 2 * length p + 2 + k ≤ size
      → Returns (Digits p k) (digits_loop (dec64 size) p c)
  unfolding digits_loop after_digit
  digits_loop-Digits [] c k h w f room =
      returns (record { all = refl; shorter = omega arith; fits = f; slack = omega arith })
  digits_loop-Digits (d ∷ p) c k h w f room = elim (Bool-cases (isdigit d)) [
    | inl digit ↦ rw (digits_loop-digit d p c h w f digit) (
        weaken
          (digits_loop-Digits p (after_digit d p c h w f) (suc k) h w (after_digit-Fits d p c h w f)
            (omega (arith, room)))
          λ out r. record {
            all = r.all;
            shorter = omega (arith, r.shorter);
            fits = r.fits;
            slack = omega (arith, r.slack);
          })
    | inr other ↦ rw other (
        returns
          (record { all = refl; shorter = omega arith; fits = f; slack = omega (arith, room) }))
  ]
