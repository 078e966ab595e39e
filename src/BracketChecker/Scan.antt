-- ===== src/BracketChecker/Scan.antt =====
-- The checker with its array stack does what it would do with a list for a stack.
use textbook_c_ds_deep.Prelude.{
  ltb, ◌^◌, ℕ, ◌+◌, ◌-◌, ◌*◌, ◌≤◌, ◌<◌, ◌≡◌, refl, ◌∙◌, true, false, none, some, List, [], ◌∷◌,
  arith, length, take, set, length-set, leb, ◌==◌, if◌then◌else◌,
}
use textbook_c_ds_deep.Run.{branch, same_branch, Run, ok, Returns, returns, bind, outcome}
use textbook_c_ds_deep.Memory.{ReallocSucceeds, Memory}
use textbook_c_ds_deep.Array.{Default, store-ok}
use textbook_c_ds_deep.Array.Stacked.{
  IsStacked, IsStacked-none, IsStacked-keep, IsStacked-push, IsStacked-pop, IsStacked-top,
}
use textbook_c_ds_deep.BracketChecker.{
  grow, BracketInfo, BracketStack, bs_empty, bs_pop, bs_push, is_open, is_close, matching_open,
  unopened, mismatched, unclosed, CheckResult, accepted, rejected, finish, check_loop,
  check_brackets, bs_init,
}

instance abbrev blank : Default BracketInfo
blank = record { value = record { ch = 0; line = 0; col = 0 } }

-- The reference: the same scan, with the open brackets in a list.
unfoldable pub scan : List ℕ → List BracketInfo → ℕ → ℕ → CheckResult
scan [] [] line col = accepted
scan [] (x ∷ st) line col = rejected x.line x.col (unclosed x)
scan (c ∷ p) st line col =
    let newline = scan p st (line + 1) 1 in
    let here : BracketInfo = record { ch = c; line = line; col = col } in
    let opened = scan p (here ∷ st) line (col + 1) in
    let closed : CheckResult = elim st [
      | [] ↦ rejected line col (unopened c)
      | x ∷ st' ↦
          let rest = scan p st' line (col + 1) in
          if x.ch == matching_open c then rest else rejected line col (mismatched x here)
    ] in
    let other = scan p st line (col + 1) in
    if c == b'\n'
    then newline
    else if is_open c
    then opened
    else if is_close c
    then closed
    else other

-- `s` holds the brackets `st`, the last pushed first.
pub record Holds (s : BracketStack) (st : List BracketInfo) : Type 0 where
  block : length s.data_ ≡ s.capacity
  bounded : s.count ≤ s.capacity
  nonzero : 0 < s.capacity
  stacked : IsStacked s.data_ s.count st

bs_pop-none : (s : BracketStack) → Holds s [] → bs_pop s ≡ ok none
unfolding bs_pop
bs_pop-none s h =
    let empty : (s.count == 0) ≡ true = ground (arith, h.stacked.size) in rw empty refl

module _ (s : BracketStack) (x : BracketInfo) (st : List BracketInfo) (h : Holds s (x ∷ st)) where
  bs_pop-some : bs_pop s ≡ ok (some (x, record s { count = s.count - 1 }))
  unfolding bs_pop
  bs_pop-some =
      let full : (s.count == 0) ≡ false = ground (arith, h.stacked.size) in
      rw (full, IsStacked-top h.stacked (omega (arith, h.block, h.bounded))) refl

  popped-Holds : Holds (record s { count = s.count - 1 }) st
  popped-Holds = record {
    block = h.block;
    bounded = omega (arith, h.bounded);
    nonzero = h.nonzero;
    stacked = IsStacked-pop h.stacked;
  }

stored-Holds :
    (s : BracketStack) (x : BracketInfo) (st : List BracketInfo)
    → Holds s st
    → s.count < s.capacity
    → Holds (record s { data_ = set s.data_ s.count x; count = s.count + 1 }) (x ∷ st)
stored-Holds s x st h free = record {
  block = length-set s.data_ s.count x ∙ h.block;
  bounded = omega (arith, free);
  nonzero = h.nonzero;
  stacked = IsStacked-push x h.stacked (omega (arith, free, h.block));
}

module _ (memory : Memory BracketInfo) where
  -- The stack with a free cell and the same brackets.
  record HasFree (s : BracketStack) (st : List BracketInfo) (r : BracketStack) : Type 0 where
    holds : Holds r st
    same_count : r.count ≡ s.count
    free : r.count < r.capacity

  grow-HasFree :
      ReallocSucceeds memory
      → (s : BracketStack) (st : List BracketInfo) → Holds s st
      → s.count < 2 ^ 30
      → Returns (HasFree s st) (if leb s.capacity s.count then grow memory s else ok s)
  unfolding grow
  grow-HasFree gives s st h few =
      branch (leb s.capacity s.count)
        (λ full.
          let twice = s.capacity * 2 in
          let fits : ltb twice (2 ^ 31) ≡ true = ground (arith, h.bounded) in
          let (b, found) = gives s.data_ twice in
          let keeps : take s.count b ≡ take s.count s.data_ =
            memory.realloc_keeps s.data_ twice b s.count found (omega (arith, h.block, h.bounded))
              (omega (arith, h.bounded)) in
          rw (fits, found)
            (returns (record {
              holds = record {
                block = memory.realloc_length s.data_ twice b found;
                bounded = omega (arith, h.bounded);
                nonzero = omega (arith, h.nonzero);
                stacked = IsStacked-keep b h.stacked keeps;
              };
              same_count = refl;
              free = ground (arith, h.bounded, h.nonzero);
            })))
        (λ open_. returns (record { holds = h; same_count = refl; free = ground arith }))

  -- What a push of `x` leaves.
  abbrev Pushed : BracketStack → List BracketInfo → BracketInfo → BracketStack → Type 0
  Pushed s st x s' = Holds s' (x ∷ st) × (s'.count ≡ s.count + 1)

  bs_push-Pushed :
      ReallocSucceeds memory
      → (s : BracketStack) (st : List BracketInfo) (x : BracketInfo) → Holds s st
      → s.count < 2 ^ 30
      → Returns (Pushed s st x) (bs_push memory s x)
  unfolding bs_push
  bs_push-Pushed gives s st x h few = bind (grow-HasFree gives s st h few) λ r f.
      rw (store-ok r.data_ r.count x (omega (arith, f.free, f.holds.block)))
        (returns (stored-Holds r x st f.holds f.free, omega (arith, f.same_count)))

  -- One round, from what its four cases give.
  same_round :
      {a b e f : Run CheckResult} {a' b' e' f' : CheckResult} (c : ℕ)
      → a ≡ ok a'
      → b ≡ ok b'
      → e ≡ ok e'
      → f ≡ ok f'
      → (if c == b'\n' then a else if is_open c then b else if is_close c then e else f)
        ≡ ok (if c == b'\n' then a' else if is_open c then b' else if is_close c then e' else f')
  same_round c p q r t =
      same_branch (c == b'\n') p (same_branch (is_open c) q (same_branch (is_close c) r t))

  finish-scan :
      (s : BracketStack) (st : List BracketInfo) (line col : ℕ)
      → Holds s st
      → finish s ≡ ok (scan [] st line col)
  unfolding finish bs_empty scan
  finish-scan s [] line col h =
      let empty : (s.count == 0) ≡ true = ground (arith, h.stacked.size) in rw empty refl
  finish-scan s (x ∷ st) line col h =
      let full : (s.count == 0) ≡ false = ground (arith, h.stacked.size) in
      rw (full, bs_pop-some s x st h) refl

  -- Where `realloc` never fails and the stack holds the brackets `st`, with 2 ^ 30 of them at most
  -- to come, the loop returns what the scan over a list gives: the verdict, the position and the
  -- message.
  pub check_loop-scan :
      ReallocSucceeds memory
      → (p : List ℕ) (s : BracketStack) (st : List BracketInfo) (line col : ℕ) → Holds s st
      → s.count + length p ≤ 2 ^ 30
      → check_loop memory p s line col ≡ ok (scan p st line col)
  unfolding check_loop scan
  check_loop-scan gives [] s st line col h few = finish-scan s st line col h
  check_loop-scan gives (c ∷ p) s [] line col h few =
      let here : BracketInfo = record { ch = c; line = line; col = col } in
      let (s', pushes, (held, more)) = outcome (bs_push-Pushed gives s [] here h (omega arith)) in
      let opened =
        check_loop-scan gives p s' (here ∷ []) line (col + 1) held (omega (arith, more)) in
      same_round c (check_loop-scan gives p s [] (line + 1) 1 h (omega arith)) (rw pushes opened)
        (rw (bs_pop-none s h) refl) (check_loop-scan gives p s [] line (col + 1) h (omega arith))
  check_loop-scan gives (c ∷ p) s (x ∷ st) line col h few =
      let here : BracketInfo = record { ch = c; line = line; col = col } in
      let (s', pushes, (held, more)) =
        outcome (bs_push-Pushed gives s (x ∷ st) here h (omega arith)) in
      let opened =
        check_loop-scan gives p s' (here ∷ x ∷ st) line (col + 1) held (omega (arith, more)) in
      same_round c (check_loop-scan gives p s (x ∷ st) (line + 1) 1 h (omega arith))
        (rw pushes opened)
        (rw (bs_pop-some s x st h) (
          same_branch (x.ch == matching_open c)
            (check_loop-scan gives p (record s { count = s.count - 1 }) st line (col + 1)
              (popped-Holds s x st h) (omega arith))
            refl))
        (check_loop-scan gives p s (x ∷ st) line (col + 1) h (omega arith))

  pub init-Holds :
      (first : List BracketInfo)
      → memory.malloc 64 ≡ some first
      → Holds (record { data_ = first; count = 0; capacity = 64 }) []
  init-Holds first found = record {
    block = memory.malloc_length 64 first found;
    bounded = omega arith;
    nonzero = omega arith;
    stacked = IsStacked-none first;
  }

  pub check_brackets_scans :
      ReallocSucceeds memory
      → (first : List BracketInfo) → memory.malloc 64 ≡ some first
      → (source : List ℕ) → length source ≤ 2 ^ 30
      → check_brackets memory source ≡ ok (scan source [] 1 1)
  unfolding check_brackets bs_init
  check_brackets_scans gives first found source few =
      let held = init-Holds first found in
      rw (check_brackets, bs_init, found, check_loop-scan gives source _ [] 1 1 held (omega arith))
        refl
