-- ===== src/MergeQuick/Merged.antt =====
-- The merge of two ascending halves.
use mathlib.Core.List.{append_assoc, append-nil, perm_middle}
use mathlib.Core.List.Perm
use textbook_c_ds_deep.Prelude.{
  ℕ, zero, suc, ◌+◌, ◌-◌, ◌<◌, ◌≡◌, refl, sym, ap, ◌∙◌, List, [], ◌∷◌, ◌++◌, Perm, arith, length,
  length-append, leb, ◌&&◌, if◌then◌else◌, true, false, Bool-cases, inl, inr,
}
use textbook_c_ds_deep.Run.{ok}
use textbook_c_ds_deep.Array.{load}
use textbook_c_ds_deep.MergeQuick.{rest_loop, merge_loop}
use textbook_c_ds_deep.MergeQuick.Slice.{load_part, store_part, rest_part}

-- The lesser head first; of equal ones the left.
unfoldable pub merged : List ℕ → List ℕ → List ℕ
merged [] ys = ys
merged (x ∷ xs) [] = x ∷ xs
merged (x ∷ xs) (y ∷ ys) =
    let left = merged xs (y ∷ ys) in
    let right = merged (x ∷ xs) ys in if leb x y then x ∷ left else y ∷ right

pub merged-perm : (xs ys : List ℕ) → Perm (merged xs ys) (xs ++ ys)
unfolding merged
merged-perm [] ys = Perm.rfl
merged-perm (x ∷ xs) [] = rw (append-nil xs) Perm.rfl
merged-perm (x ∷ xs) (y ∷ ys) = elim (Bool-cases (leb x y)) [
  | inl le ↦ rw le (Perm.cons x (merged-perm xs (y ∷ ys)))
  | inr gt ↦
      rw gt
        (Perm.trans (Perm.cons y (merged-perm (x ∷ xs) ys)) (Perm.symm (perm_middle (x ∷ xs) ys)))
]

pub length-merged : (xs ys : List ℕ) → length (merged xs ys) ≡ length xs + length ys
unfolding merged
length-merged [] ys = omega arith
length-merged (x ∷ xs) [] = omega arith
length-merged (x ∷ xs) (y ∷ ys) =
    ground (arith, length-merged xs (y ∷ ys), length-merged (x ∷ xs) ys)

pub merge_loop-merged :
    (fuel : ℕ) (xs ys olds a b p q r s tmp : List ℕ) (i j k mid right : ℕ)
    → tmp ≡ p ++ (xs ++ q)
    → tmp ≡ r ++ (ys ++ s)
    → length olds ≡ length xs + length ys
    → k ≡ length a
    → i ≡ length p
    → j ≡ length r
    → mid + 1 ≡ i + length xs
    → right + 1 ≡ j + length ys
    → length xs + length ys < fuel
    → merge_loop fuel (a ++ (olds ++ b)) tmp i j k mid right ≡ ok (a ++ (merged xs ys ++ b))
unfolding merge_loop merged rest_loop
merge_loop-merged zero xs ys olds a b p q r s tmp i j k mid right t u n e f g m w fuel =
    absurd (omega arith)
merge_loop-merged (suc fuel) [] ys olds a b p q r s tmp i j k mid right t u n e f g m w enough =
    let done : leb i mid ≡ false = ground arith in
    let none_left : mid + 1 - i ≡ 0 = omega arith in
    let others : right + 1 - j ≡ length ys = omega arith in
    let same : k + 0 ≡ k = omega arith in
    rw (done, none_left, others, same, u) (rest_part ys olds a b r s j k (omega (arith, n)) e g)
merge_loop-merged (suc fuel) (x ∷ xs) [] olds a b p q r s tmp i j k mid right t u n e f g m w
      enough =
    let done : (leb i mid && leb j right) ≡ false = ground arith in
    let others : mid + 1 - i ≡ length (x ∷ xs) = omega arith in
    let none_left : right + 1 - j ≡ 0 = omega arith in
    rw (done, none_left, others, t, rest_part (x ∷ xs) olds a b p q i k (omega arith) e f) refl
merge_loop-merged (suc fuel) (x ∷ xs) (y ∷ ys) [] a b p q r s tmp i j k mid right t u n e f g m w
      enough =
    absurd (omega arith)
merge_loop-merged (suc fuel) (x ∷ xs) (y ∷ ys) (o ∷ olds) a b p q r s tmp i j k mid right t u n e f
      g m w enough =
    let both : (leb i mid && leb j right) ≡ true = ground arith in
    let first = ap (λ (l : List ℕ). load l i) t ∙ load_part p (xs ++ q) x i f in
    let second = ap (λ (l : List ℕ). load l j) u ∙ load_part r (ys ++ s) y j g in
    rw (both, first, second)
      (elim (Bool-cases (leb x y)) [
        | inl le ↦
            let next =
              merge_loop-merged fuel xs (y ∷ ys) olds (a ++ x ∷ []) b (p ++ x ∷ []) q r s tmp
                (i + 1) j (k + 1) mid right (t ∙ sym (append_assoc p (x ∷ []) (xs ++ q))) u
                (omega arith) (omega (arith, length-append a (x ∷ [])))
                (omega (arith, length-append p (x ∷ []))) g (omega arith) w (omega arith) in
            rw (le, store_part a (olds ++ b) o x k e)
              (rw
                (
                  append_assoc a (x ∷ []) (olds ++ b),
                  append_assoc a (x ∷ []) (merged xs (y ∷ ys) ++ b),
                )
                at next)
        | inr gt ↦
            let next =
              merge_loop-merged fuel (x ∷ xs) ys olds (a ++ y ∷ []) b p q (r ++ y ∷ []) s tmp i
                (j + 1) (k + 1) mid right t (u ∙ sym (append_assoc r (y ∷ []) (ys ++ s)))
                (omega arith) (omega (arith, length-append a (y ∷ []))) f
                (omega (arith, length-append r (y ∷ []))) m (omega arith) (omega arith) in
            rw (gt, store_part a (olds ++ b) o y k e)
              (rw
                (
                  append_assoc a (y ∷ []) (olds ++ b),
                  append_assoc a (y ∷ []) (merged (x ∷ xs) ys ++ b),
                )
                at next)
      ])
