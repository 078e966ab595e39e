-- ===== src/Run.antt =====
-- How a call of a C function ends, and the rules for calls that end well.
use textbook_c_ds_deep.Prelude.{
  ℕ, ◌^◌, ◌≡◌, refl, Bool, true, false, Option, none, some, ltb, if◌then◌else◌,
}

-- `fault` is undefined behaviour (an access outside an allocation, a NULL dereference) or a failed
-- `assert`; `exited` is a call of `exit`; `out_of_fuel` says that the model's bound on a loop was too small.
pub data Run {ℓ} (A : Type ℓ) : Type ℓ where
  ok : A → Run A
  fault : Run A
  exited : Run A
  out_of_fuel : Run A

infixl 5 ◌>>=◌
abbrev pub ◌>>=◌ {ℓ κ} : {A : Type ℓ} {B : Type κ} → Run A → (A → Run B) → Run B
ok a >>= f = f a
fault >>= f = fault
exited >>= f = exited
out_of_fuel >>= f = out_of_fuel

abbrev pub check {ℓ} : {A : Type ℓ} → Option A → Run A
check none = fault
check (some a) = ok a

-- The result of an `int` operation; an overflow is undefined.
abbrev pub int_result : ℕ → Run ℕ
int_result n = if ltb n (2 ^ 31) then ok n else fault

-- The call returns, and its value satisfies `P`.
pub data Returns {ℓ κ} {A : Type ℓ} (P : A → Type κ) : Run A → Type (ℓ ⊔ κ) where
  returns : {a : A} → P a → Returns P (ok a)

module _ {ℓ κ} {A : Type ℓ} {P : A → Type κ} where
  pub bind :
      {B : Type ℓ} {Q : B → Type κ} {m : Run A} {f : A → Run B}
      → Returns P m
      → ((a : A) → P a → Returns Q (f a))
      → Returns Q (m >>= f)
  bind (returns p) next = next _ p

  pub weaken : {Q : A → Type κ} {m : Run A} → Returns P m → ((a : A) → P a → Q a) → Returns Q m
  weaken (returns p) f = returns (f _ p)

  pub branch :
      {m n : Run A} (b : Bool)
      → (b ≡ true → Returns P m)
      → (b ≡ false → Returns P n)
      → Returns P (if b then m else n)
  branch true p q = p refl
  branch false p q = q refl

  pub outcome : {m : Run A} → Returns P m → (a : A) × (m ≡ ok a) × P a
  outcome (returns p) = (_, refl, p)

module _ {ℓ} {A : Type ℓ} {m n : Run A} {x y : A} where
  -- Two conditionals on one test.
  pub same_branch :
      (b : Bool) → m ≡ ok x → n ≡ ok y → (if b then m else n) ≡ ok (if b then x else y)
  same_branch true p q = p
  same_branch false p q = q
