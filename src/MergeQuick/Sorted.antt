-- ===== src/MergeQuick/Sorted.antt =====
-- merge_sort sorts.
use mathlib.Core.List.{append_assoc, append-nil}
use mathlib.Core.List.Perm
use textbook_c_ds_deep.Prelude.{
  ℕ, zero, suc, ◌+◌, ◌-◌, ◌/◌, ◌≤◌, ◌<◌, ◌≡◌, refl, sym, ap, ◌∙◌, some, List, [], ◌∷◌, ◌++◌, Perm,
  arith, length, length-append, leb, Bool-cases, inl, inr, take, drop, length-take, length-drop,
  take-append-drop,
}
use textbook_c_ds_deep.Run.{ok, Returns, returns, bind, weaken}
use textbook_c_ds_deep.Array.{at}
use textbook_c_ds_deep.SimpleSorts.Ordered.{int_default, Sorts}
use textbook_c_ds_deep.MergeQuick.{merge, copy_at, merge_sort_helper, merge_sort}
use textbook_c_ds_deep.MergeQuick.Slice.{copy_part}
use textbook_c_ds_deep.MergeQuick.Merged.{merged, merged-perm, length-merged, merge_loop-merged}

-- No element is below `x`.
unfoldable pub IsFloor : ℕ → List ℕ → Type 0
IsFloor x [] = Unit {0}
IsFloor x (y ∷ ys) = (x ≤ y) × IsFloor x ys

unfoldable pub IsSorted : List ℕ → Type 0
IsSorted [] = Unit {0}
IsSorted (x ∷ xs) = IsFloor x xs × IsSorted xs

IsFloor-lower : (x y : ℕ) (ys : List ℕ) → x ≤ y → IsFloor y ys → IsFloor x ys
unfolding IsFloor
IsFloor-lower x y [] le f = tt
IsFloor-lower x y (z ∷ ys) le (p, f) = (omega (arith, le, p), IsFloor-lower x y ys le f)

merged-IsFloor : (z : ℕ) (xs ys : List ℕ) → IsFloor z xs → IsFloor z ys → IsFloor z (merged xs ys)
unfolding IsFloor merged
merged-IsFloor z [] ys f g = g
merged-IsFloor z (x ∷ xs) [] f g = f
merged-IsFloor z (x ∷ xs) (y ∷ ys) (p, f) (q, g) = elim (Bool-cases (leb x y)) [
  | inl le ↦ rw le (p, merged-IsFloor z xs (y ∷ ys) f (q, g))
  | inr gt ↦ rw gt (q, merged-IsFloor z (x ∷ xs) ys (p, f) g)
]

merged-IsSorted : (xs ys : List ℕ) → IsSorted xs → IsSorted ys → IsSorted (merged xs ys)
unfolding IsSorted IsFloor merged
merged-IsSorted [] ys f g = g
merged-IsSorted (x ∷ xs) [] f g = f
merged-IsSorted (x ∷ xs) (y ∷ ys) (f, fs) (g, gs) = elim (Bool-cases (leb x y)) [
  | inl le ↦
      let low : x ≤ y = ground arith in
      rw le (
        merged-IsFloor x xs (y ∷ ys) f (low, IsFloor-lower x y ys low g),
        merged-IsSorted xs (y ∷ ys) fs (g, gs),
      )
  | inr gt ↦
      let low : y ≤ x = ground arith in
      rw gt (
        merged-IsFloor y (x ∷ xs) ys (low, IsFloor-lower y x xs low f) g,
        merged-IsSorted (x ∷ xs) ys (f, fs) gs,
      )
]

IsFloor-at : (x : ℕ) (ys : List ℕ) (k : ℕ) → IsFloor x ys → k < length ys → x ≤ at ys k
unfolding IsFloor at
IsFloor-at x [] k f h = absurd (omega arith)
IsFloor-at x (y ∷ ys) zero (p, f) h = p
IsFloor-at x (y ∷ ys) (suc k) (p, f) h = IsFloor-at x ys k f (omega arith)

pub IsSorted-at : (xs : List ℕ) (i j : ℕ) → IsSorted xs → i < j → j < length xs → at xs i ≤ at xs j
unfolding IsSorted at
IsSorted-at [] i j s p h = absurd (omega arith)
IsSorted-at (x ∷ xs) i zero s p h = absurd (omega arith)
IsSorted-at (x ∷ xs) zero (suc j) (f, s) p h = IsFloor-at x xs j f (omega arith)
IsSorted-at (x ∷ xs) (suc i) (suc j) (f, s) p h = IsSorted-at xs i j s (omega arith) (omega arith)

-- The range between `a` and `b` sorted, and a buffer of the same size.
record RangeSorted (a s b tmp : List ℕ) (out : List ℕ × List ℕ) : Type 0 where
  range : List ℕ
  cells : out.0 ≡ a ++ (range ++ b)
  sorted : IsSorted range
  same : Perm range s
  size : length range ≡ length s
  buffer : length out.1 ≡ length tmp

merge-RangeSorted :
    (a u v b tmp : List ℕ) (left mid right : ℕ)
    → left ≡ length a
    → mid + 1 ≡ left + length u
    → right + 1 ≡ left + (length u + length v)
    → left ≤ right
    → IsSorted u
    → IsSorted v
    → right < length tmp
    → Returns (RangeSorted a (u ++ v) b tmp) (merge (a ++ ((u ++ v) ++ b)) tmp left mid right)
unfolding merge
merge-RangeSorted a u v b tmp left mid right l m r o su sv room =
    let n = right - left + 1 in
    let p = take left tmp in
    let old = take n (drop left tmp) in
    let rest = drop n (drop left tmp) in
    let whole : tmp ≡ p ++ (old ++ rest) =
      sym (ap (λ t. p ++ t) (take-append-drop n (drop left tmp)) ∙ take-append-drop left tmp) in
    let lp : left ≡ length p = omega (arith, length-take left tmp, o, room) in
    let ln : n ≡ length old =
      omega (arith, length-take n (drop left tmp), length-drop left tmp, o, room) in
    let lr = length-drop n (drop left tmp) in
    let both = length-append u v in
    let copied : copy_at tmp (a ++ ((u ++ v) ++ b)) left n ≡ ok (p ++ ((u ++ v) ++ rest)) =
      ap (λ t. copy_at t (a ++ ((u ++ v) ++ b)) left n) whole
      ∙ copy_part a (u ++ v) b p old rest left n l lp (omega (arith, both, r, o)) ln in
    let loop =
      merge_loop-merged (right - left + 2) u v (u ++ v) a b p (v ++ rest) (p ++ u) rest
        (p ++ ((u ++ v) ++ rest)) left (mid + 1) left mid right
        (ap (λ t. p ++ t) (append_assoc u v rest))
        (ap (λ t. p ++ t) (append_assoc u v rest) ∙ sym (append_assoc p u (v ++ rest))) both l lp
        (omega (arith, length-append p u, lp, m)) m (omega (arith, m, r)) (omega (arith, r, o)) in
    rw (copied, loop)
      (returns (record {
        range = merged u v;
        cells = refl;
        sorted = merged-IsSorted u v su sv;
        same = merged-perm u v;
        size = length-merged u v ∙ sym both;
        buffer = omega (
          arith,
          ap (λ (t : List ℕ). length t) whole,
          length-append p ((u ++ v) ++ rest),
          length-append (u ++ v) rest,
          length-append p (old ++ rest),
          length-append old rest,
          ln,
          both,
          r,
          o,
        );
      }))

merge_sort_helper-RangeSorted :
    (fuel : ℕ) (a s b tmp : List ℕ) (left right : ℕ)
    → left ≡ length a
    → right + 1 ≡ left + length s
    → 0 < length s
    → length s ≤ fuel
    → right < length tmp
    → Returns (RangeSorted a s b tmp) (merge_sort_helper fuel (a ++ (s ++ b)) tmp left right)
unfolding merge_sort_helper IsSorted IsFloor
merge_sort_helper-RangeSorted zero a s b tmp left right l r some_ enough room = absurd (omega arith)
merge_sort_helper-RangeSorted (suc fuel) a s b tmp left right l r some_ enough room =
    elim (Bool-cases (leb right left)) [
      | inl single ↦ rw single (
          returns (record {
            range = s;
            cells = refl;
            sorted = one s (ground arith);
            same = Perm.rfl;
            size = refl;
            buffer = refl;
          }))
      | inr several ↦
          let mid = left + (right - left) / 2 in
          let h = (right - left) / 2 + 1 in
          let u = take h s in
          let v = drop h s in
          let more : left < right = ground arith in
          let lu = length-take h s in
          let lv = length-drop h s in
          let joined = take-append-drop h s in
          let start : a ++ (s ++ b) ≡ a ++ (u ++ (v ++ b)) =
            ap (λ t. a ++ t) (ap (λ t. t ++ b) (sym joined) ∙ append_assoc u v b) in
          rw (several, start)
            (bind
              (merge_sort_helper-RangeSorted fuel a u (v ++ b) tmp left mid l
                (omega (arith, lu, r, more)) (omega (arith, lu, r, more))
                (omega (arith, lu, r, more, enough)) (omega (arith, room, more)))
              λ first x.
                let middle : first.0 ≡ (a ++ x.range) ++ (v ++ b) =
                  x.cells ∙ sym (append_assoc a x.range (v ++ b)) in
                rw middle (
                  bind
                    (merge_sort_helper-RangeSorted fuel (a ++ x.range) v b first.1 (mid + 1) right
                      (omega (arith, length-append a x.range, l, x.size, lu, r, more))
                      (omega (arith, lv, r, more)) (omega (arith, lv, r, more))
                      (omega (arith, lv, r, more, enough)) (omega (arith, x.buffer, room)))
                    λ second y.
                      let last : second.0 ≡ a ++ ((x.range ++ y.range) ++ b) =
                        y.cells
                        ∙ append_assoc a x.range (y.range ++ b)
                        ∙ ap (λ t. a ++ t) (sym (append_assoc x.range y.range b)) in
                      rw last (
                        weaken
                          (merge-RangeSorted a x.range y.range b second.1 left mid right l
                            (omega (arith, x.size, lu, r, more))
                            (omega (arith, x.size, y.size, lu, lv, r, more)) (omega (arith, more))
                            x.sorted y.sorted (omega (arith, x.buffer, y.buffer, room)))
                          λ out z. record {
                            range = z.range;
                            cells = z.cells;
                            sorted = z.sorted;
                            same = Perm.trans z.same (rw joined at (Perm.append x.same y.same));
                            size = omega (
                              arith,
                              z.size,
                              length-append x.range y.range,
                              x.size,
                              y.size,
                              lu,
                              lv,
                              r,
                              more,
                            );
                            buffer = z.buffer ∙ y.buffer ∙ x.buffer;
                          })))
    ]
  where
    one : (s : List ℕ) → length s < 2 → IsSorted s
    one [] e = tt
    one (x ∷ []) e = (tt, tt)
    one (x ∷ y ∷ xs) e = absurd (omega (arith, e))

-- With a buffer of `n` cells `merge_sort` returns, without an access outside the array or the buffer,
-- the ints of the array in ascending order.
pub merge_sort-Sorts :
    (tmp arr : List ℕ)
    → length tmp ≡ length arr
    → Returns (Sorts arr) (merge_sort (some tmp) arr (length arr))
unfolding merge_sort IsSorted IsFloor
merge_sort-Sorts tmp arr room = elim (Bool-cases (leb (length arr) 1)) [
  | inl short ↦ rw short (returns (λ i j p q. absurd (ground (arith, p, q)), Perm.rfl))
  | inr long ↦
      let whole = append-nil arr in
      rw long (
        bind
          (rw whole at (
            merge_sort_helper-RangeSorted (length arr) [] arr [] tmp 0 (length arr - 1) refl
              (ground arith) (ground arith) (omega arith) (ground (arith, room))))
          λ out r.
            let cells = r.cells ∙ append-nil r.range in
            returns (rw cells (λ i j p q. IsSorted-at r.range i j r.sorted p q, r.same)))
]
