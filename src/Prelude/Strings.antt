-- ===== src/Prelude/Strings.antt =====
-- C strings as lists of bytes, less the final zero.
use Prim.Native.Nat.{ℕ}
use mathlib.Core.Path.{◌≡◌, refl, ap₂}
use mathlib.Core.Bool.{Bool, true, false}
use mathlib.Core.List.{List, [], ◌∷◌}
use mathlib.Core.Logic.{inl, inr}
use native.Mathlib.Omega.{arith}
use textbook_c_ds_deep.Prelude.Tests.{◌==◌, if◌then◌else◌, Bool-cases}

-- `strcmp(a, b) == 0`
unfoldable pub same_string : List ℕ → List ℕ → Bool
same_string [] [] = true
same_string [] (y ∷ b) = false
same_string (x ∷ a) [] = false
same_string (x ∷ a) (y ∷ b) = let rest = same_string a b in if x == y then rest else false

pub same_string_refl : (a : List ℕ) → same_string a a ≡ true
unfolding same_string
same_string_refl [] = refl
same_string_refl (x ∷ a) = ground (arith, same_string_refl a)

pub same_string-eq : (a b : List ℕ) → same_string a b ≡ true → a ≡ b
unfolding same_string
same_string-eq [] [] h = refl
same_string-eq [] (y ∷ b) h = absurd cc
same_string-eq (x ∷ a) [] h = absurd cc
same_string-eq (x ∷ a) (y ∷ b) h = elim (Bool-cases (x == y)) [
  | inl same ↦ let e : x ≡ y = ground arith in ap₂ (◌∷◌) e (same_string-eq a b (rw same at h))
  | inr other ↦ let no : false ≡ true = rw other at h in absurd cc
]

pub same_string-neq : (a b : List ℕ) → ¬ (a ≡ b) → same_string a b ≡ false
same_string-neq a b h = elim (Bool-cases (same_string a b)) [
  | inl same ↦ absurd (h (same_string-eq a b same))
  | inr other ↦ other
]
