-- ===== src/DynamicArray/Amortised.antt =====
-- What a push adds, and how many elements all pushes together copied.
use textbook_c_ds_deep.Prelude.{
  ℕ, zero, suc, ◌+◌, ◌-◌, ◌*◌, ◌^◌, ◌≤◌, ◌<◌, ltb, ◌≡◌, refl, ap, ◌∙◌, some, List, [], ◌∷◌, ◌++◌,
  arith, leb, ◌&&◌, ◌==◌, length, take, drop, set, length-set, length-append, length-take,
  length-drop,
}
use textbook_c_ds_deep.Run.{ok, ◌>>=◌, int_result, Returns, returns, bind, branch}
use textbook_c_ds_deep.Memory.{Memory}
use textbook_c_ds_deep.Array.{store, store-ok}
use textbook_c_ds_deep.DynamicArray.{DynArray, memcpy, da_grow, da_push}

-- The capacity is the block's, and one more than the elements copied so far; at least half of it is
-- in use from the first element on.
pub record IsValid (a : DynArray) : Type 0 where
  pub block : length a.data_ ≡ a.capacity
  pub bounded : a.size ≤ a.capacity
  pub copied : a.total_copies + 1 ≡ a.capacity
  pub half : a.capacity ≤ 1 + 2 * (a.size - 1)

abbrev pub elements : DynArray → List ℕ
elements a = take a.size a.data_

-- What a push leaves.
pub record Pushed (a : DynArray) (val : ℕ) (b : DynArray) : Type 0 where
  pub valid : IsValid b
  pub added : elements b ≡ elements a ++ val ∷ []
  pub cheap : b.total_copies < 2 * b.size

take-set_last :
    (n : ℕ) (a : List ℕ) (x : ℕ) → n < length a → take (suc n) (set a n x) ≡ take n a ++ x ∷ []
take-set_last n [] x h = absurd (omega arith)
take-set_last zero (y ∷ a) x h = refl
take-set_last (suc n) (y ∷ a) x h = ap (λ t. y ∷ t) (take-set_last n a x (omega arith))

take-append_take : (n : ℕ) (a r : List ℕ) → n ≤ length a → take n (take n a ++ r) ≡ take n a
take-append_take zero a r h = refl
take-append_take (suc n) [] r h = absurd (omega arith)
take-append_take (suc n) (x ∷ a) r h = ap (λ t. x ∷ t) (take-append_take n a r (omega arith))

int_result-Returns : (n : ℕ) → n < 2 ^ 31 → Returns (λ m. m ≡ n) (int_result n)
int_result-Returns n h = branch (ltb n (2 ^ 31)) (λ e. returns refl) (λ e. absurd (ground arith))

memcpy-Returns :
    (dst src : List ℕ) (n : ℕ)
    → n ≤ length dst
    → n ≤ length src
    → Returns (λ c. c ≡ take n src ++ drop n dst) (memcpy dst src n)
unfolding memcpy
memcpy-Returns dst src n p q =
    branch (leb n (length dst) && leb n (length src)) (λ e. returns refl)
      (λ e. absurd (ground arith))

length-memcpy :
    (dst src : List ℕ) (n : ℕ)
    → n ≤ length dst
    → n ≤ length src
    → length (take n src ++ drop n dst) ≡ length dst
length-memcpy dst src n p q =
    omega (arith, length-append (take n src) (drop n dst), length-take n src, length-drop n dst)

-- An array with a free cell.
record Roomy (a b : DynArray) : Type 0 where
  valid : IsValid (record b { size = b.size + 1 })
  same_size : b.size ≡ a.size
  same : elements b ≡ elements a
  free : b.size < length b.data_

append_Pushed :
    (a b : DynArray) (val : ℕ)
    → Roomy a b
    → b.size + 1 < 2 ^ 31
    → Returns (Pushed a val) (
        store b.data_ b.size val >>= λ cells.
        int_result (b.size + 1) >>= λ size. ok (record b { data_ = cells; size = size }))
append_Pushed a b val r small =
    let h = r.valid in
    rw (store-ok b.data_ b.size val r.free) (
      bind (int_result-Returns (b.size + 1) small) λ size e. rw e (
        returns (record {
          valid = record {
            block = length-set b.data_ b.size val ∙ h.block;
            bounded = h.bounded;
            copied = h.copied;
            half = h.half;
          };
          added =
              (let n : b.size + 1 ≡ suc b.size = omega arith in
                rw n (take-set_last b.size b.data_ val r.free))
              ∙ ap (λ (t : List ℕ). t ++ val ∷ []) r.same;
          cheap = omega (arith, h.copied, h.half);
        })))

module _ (memory : Memory ℕ) where
  da_grow-Roomy :
      (a : DynArray) (block : List ℕ)
      → IsValid a
      → a.size ≡ a.capacity
      → memory.malloc (a.capacity * 2) ≡ some block
      → a.capacity * 2 < 2 ^ 31
      → Returns (Roomy a) (da_grow memory a)
  unfolding da_grow memcpy
  da_grow-Roomy a block h full found small =
      let len = memory.malloc_length (a.capacity * 2) block found in
      let whole =
        length-memcpy block a.data_ a.size (omega (arith, len, full))
          (omega (arith, h.block, full)) in
      bind (int_result-Returns (a.capacity * 2) small) λ cap e.
        rw (e, found)
          (bind
            (memcpy-Returns block a.data_ a.size (omega (arith, len, full))
              (omega (arith, h.block, full)))
            λ cells f.
              bind
                (int_result-Returns (a.total_copies + a.size)
                  (omega (arith, h.copied, full, small)))
                λ copies g. returns (record {
                  valid = record {
                    block = ap length f ∙ whole ∙ len;
                    bounded = omega (arith, full, h.copied);
                    copied = omega (arith, g, h.copied, full);
                    half = omega (arith, full);
                  };
                  same_size = refl;
                  same = rw f (
                      take-append_take a.size a.data_ (drop a.size block)
                        (omega (arith, h.block, full)));
                  free = let l = ap length f in omega (arith, l, whole, len, full, h.copied);
                }))

  -- A push onto a valid array whose new block, where one is needed, malloc finds and an int can
  -- count: it adds the element behind the others, and all pushes together copied fewer than two
  -- elements for each element there is.
  pub da_push-Pushed :
      (a : DynArray) (val : ℕ)
      → IsValid a
      → a.capacity * 2 < 2 ^ 31
      → ((n : ℕ) → (b : List ℕ) × (memory.malloc n ≡ some b))
      → Returns (Pushed a val) (da_push memory a val)
  unfolding da_push
  da_push-Pushed a val h small plenty =
      let (block, found) = plenty (a.capacity * 2) in
      bind
        (branch {P = Roomy a} (a.size == a.capacity)
          (λ full. da_grow-Roomy a block h (ground arith) found small)
          (λ open_. returns (record {
            valid = record {
              block = h.block;
              bounded = ground (arith, h.bounded);
              copied = h.copied;
              half = omega (arith, h.half);
            };
            same_size = refl;
            same = refl;
            free = ground (arith, h.bounded, h.block);
          })))
        λ b r. append_Pushed a b val r (omega (arith, r.same_size, h.bounded, small, h.copied))
