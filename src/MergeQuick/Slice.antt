-- ===== src/MergeQuick/Slice.antt =====
-- Reads, writes and copies in a list that is known in parts.
use mathlib.Core.List.{append_assoc}
use textbook_c_ds_deep.Prelude.{
  ℕ, ◌+◌, ◌≡◌, refl, ap, ◌∙◌, List, [], ◌∷◌, ◌++◌, arith, length, length-append, take, drop, set,
  leb, ◌&&◌, ltb, true,
}
use textbook_c_ds_deep.Run.{ok}
use textbook_c_ds_deep.Array.{load, store}
use textbook_c_ds_deep.MergeQuick.{rest_loop, copy_at}

pub load_part : (a b : List ℕ) (x : ℕ) (k : ℕ) → k ≡ length a → load (a ++ x ∷ b) k ≡ ok x
unfolding load
load_part [] b x k e = rw e refl
load_part (y ∷ a) b x k e = rw e (load_part a b x (length a) refl)

set_part : (a b : List ℕ) (x y : ℕ) → set (a ++ x ∷ b) (length a) y ≡ a ++ y ∷ b
set_part [] b x y = refl
set_part (z ∷ a) b x y = ap (λ l. z ∷ l) (set_part a b x y)

pub store_part :
    (a b : List ℕ) (x y : ℕ) (k : ℕ) → k ≡ length a → store (a ++ x ∷ b) k y ≡ ok (a ++ y ∷ b)
unfolding store
store_part a b x y k e =
    let inside : ltb (length a) (length (a ++ x ∷ b)) ≡ true =
      ground (arith, length-append a (x ∷ b)) in
    rw (e, inside) (ap ok (set_part a b x y))

take_part : (a b : List ℕ) → take (length a) (a ++ b) ≡ a
take_part [] b = refl
take_part (x ∷ a) b = ap (λ l. x ∷ l) (take_part a b)

drop_part : (a b : List ℕ) → drop (length a) (a ++ b) ≡ b
drop_part [] b = refl
drop_part (x ∷ a) b = drop_part a b

-- A copy of the middle part.
pub copy_part :
    (a s b a' s' b' : List ℕ) (i n : ℕ)
    → i ≡ length a
    → i ≡ length a'
    → n ≡ length s
    → n ≡ length s'
    → copy_at (a' ++ (s' ++ b')) (a ++ (s ++ b)) i n ≡ ok (a' ++ (s ++ b'))
unfolding copy_at
copy_part a s b a' s' b' i n e f g h =
    let fits : (leb (i + n) (length (a' ++ (s' ++ b'))) && leb (i + n) (length (a ++ (s ++ b))))
        ≡ true =
      ground (
        arith,
        length-append a (s ++ b),
        length-append s b,
        length-append a' (s' ++ b'),
        length-append s' b',
      ) in
    let front = take_part a' (s' ++ b') in
    let middle = ap (take n) (ap (λ k. drop k (a ++ (s ++ b))) e ∙ drop_part a (s ++ b)) in
    let whole = ap (λ k. take k (s ++ b)) g ∙ take_part s b in
    let behind = ap (drop n) (ap (λ k. drop k (a' ++ (s' ++ b'))) f ∙ drop_part a' (s' ++ b')) in
    let tail = ap (λ k. drop k (s' ++ b')) h ∙ drop_part s' b' in
    let first = ap (λ k. take k (a' ++ (s' ++ b'))) f ∙ front in
    rw (fits, first, middle, whole, behind, tail) (ap ok (append_assoc a' s b'))

-- The copy of the rest.
pub rest_part :
    (xs olds a b p q : List ℕ) (i k : ℕ)
    → length olds ≡ length xs
    → k ≡ length a
    → i ≡ length p
    → rest_loop (length xs) (a ++ (olds ++ b)) (p ++ (xs ++ q)) i k ≡ ok (a ++ (xs ++ b))
unfolding rest_loop
rest_part [] [] a b p q i k same e f = refl
rest_part [] (o ∷ olds) a b p q i k same e f = absurd (omega arith)
rest_part (x ∷ xs) [] a b p q i k same e f = absurd (omega arith)
rest_part (x ∷ xs) (o ∷ olds) a b p q i k same e f =
    let next =
      rest_part xs olds (a ++ x ∷ []) b (p ++ x ∷ []) q (i + 1) (k + 1) (omega arith)
        (omega (arith, length-append a (x ∷ []))) (omega (arith, length-append p (x ∷ []))) in
    rw (load_part p (xs ++ q) x i f, store_part a (olds ++ b) o x k e)
      (rw
        (
          append_assoc a (x ∷ []) (olds ++ b),
          append_assoc p (x ∷ []) (xs ++ q),
          append_assoc a (x ∷ []) (xs ++ b),
        )
        at next)
