-- ===== src/Stack/Brackets.antt =====
-- The brackets of stack.c and those of bracket_checker.c.
use mathlib.Core.List.{map}
use textbook_c_ds_deep.Prelude.{
  ℕ, ◌+◌, ◌-◌, ◌^◌, ◌≤◌, ◌≡◌, refl, ap, ◌∙◌, true, false, not, some, List, [], ◌∷◌, arith, ◌==◌,
  length, inl, inr, Bool-cases,
}
use textbook_c_ds_deep.Run.{ok, outcome, ◌>>=◌}
use textbook_c_ds_deep.Memory.{ReallocSucceeds, Memory}
use textbook_c_ds_deep.Array.{Default}
use textbook_c_ds_deep.Array.Stacked.{IsStacked-none}
use textbook_c_ds_deep.BracketChecker.{
  BracketInfo, is_open, is_close, matching_open, accepted, rejected,
}
use textbook_c_ds_deep.BracketChecker.Scan.{scan, check_brackets_scans}
use textbook_c_ds_deep.BracketChecker
use textbook_c_ds_deep.BracketChecker.Grammar.{newline-not_bracket}
use textbook_c_ds_deep.Stack.{
  ArrayStack, astack_init, opens, closes, mismatch, brackets_loop, check_brackets,
}
use textbook_c_ds_deep.Stack.Lifo.{
  Holds, not_empty, astack_pop-some, popped-Holds, astack_push-Pushed,
}

instance abbrev char_default : Default ℕ
char_default = record { value = 0 }

abbrev pub chars : List BracketInfo → List ℕ
chars = map (λ (b : BracketInfo). b.ch)

mismatch_matching : (c top : ℕ) → closes c ≡ true → mismatch c top ≡ not (top == matching_open c)
mismatch_matching c top h = ground arith

module _ (memory : Memory ℕ) where
  pub brackets_loop-scan :
      ReallocSucceeds memory
      → (p : List ℕ) (s : ArrayStack ℕ) (st : List BracketInfo) (line col : ℕ) → Holds s (chars st)
      → s.count + length p ≤ 2 ^ 30
      → brackets_loop memory p s ≡ ok (scan p st line col).is_ok
  unfolding brackets_loop scan
  brackets_loop-scan gives [] s [] line col h few =
      let empty : (s.count == 0) ≡ true = ground (arith, h.stacked.size) in rw empty refl
  brackets_loop-scan gives [] s (x ∷ st) line col h few = rw (not_empty s x.ch (chars st) h) refl
  brackets_loop-scan gives (c ∷ p) s [] line col h few =
      let here : BracketInfo = record { ch = c; line = line; col = col } in
      let (s', pushes, (held, done, more)) =
        outcome (astack_push-Pushed memory gives s (chars []) c h (omega arith)) in
      elim (Bool-cases (c == b'\n')) [
        | inl newline ↦
            let (oc, cl) = newline-not_bracket c newline in
            rw (newline, oc, cl) (brackets_loop-scan gives p s [] (line + 1) 1 h (omega arith))
        | inr other ↦ elim (Bool-cases (opens c)) [
          | inl oc ↦
              rw (other, oc, pushes)
                (brackets_loop-scan gives p s'.1 (here ∷ []) line (col + 1) held
                  (omega (arith, more)))
          | inr oc ↦ elim (Bool-cases (closes c)) [
            | inr cl ↦
                rw (other, oc, cl) (brackets_loop-scan gives p s [] line (col + 1) h (omega arith))
            | inl cl ↦
                let empty : (s.count == 0) ≡ true = ground (arith, h.stacked.size) in
                rw (other, oc, cl, empty) refl
          ]
        ]
      ]
  brackets_loop-scan gives (c ∷ p) s (x ∷ st) line col h few =
      let here : BracketInfo = record { ch = c; line = line; col = col } in
      let (s', pushes, (held, done, more)) =
        outcome (astack_push-Pushed memory gives s (chars (x ∷ st)) c h (omega arith)) in
      elim (Bool-cases (c == b'\n')) [
        | inl newline ↦
            let (oc, cl) = newline-not_bracket c newline in
            rw (newline, oc, cl)
              (brackets_loop-scan gives p s (x ∷ st) (line + 1) 1 h (omega arith))
        | inr other ↦ elim (Bool-cases (opens c)) [
          | inl oc ↦
              rw (other, oc, pushes)
                (brackets_loop-scan gives p s'.1 (here ∷ x ∷ st) line (col + 1) held
                  (omega (arith, more)))
          | inr oc ↦ elim (Bool-cases (closes c)) [
            | inr cl ↦
                rw (other, oc, cl)
                  (brackets_loop-scan gives p s (x ∷ st) line (col + 1) h (omega arith))
            | inl cl ↦
                let rest =
                  brackets_loop-scan gives p (record s { count = s.count - 1 }) st line (col + 1)
                    (popped-Holds s x.ch (chars st) h) (omega arith) in
                elim (Bool-cases (x.ch == matching_open c)) [
                  | inl m ↦
                      let fits : mismatch c x.ch ≡ false = mismatch_matching c x.ch cl ∙ ap not m in
                      rw
                        (
                          other,
                          oc,
                          cl,
                          not_empty s x.ch (chars st) h,
                          astack_pop-some s x.ch (chars st) h,
                          m,
                          fits,
                        )
                        rest
                  | inr m ↦
                      let fits : mismatch c x.ch ≡ true = mismatch_matching c x.ch cl ∙ ap not m in
                      rw
                        (
                          other,
                          oc,
                          cl,
                          not_empty s x.ch (chars st) h,
                          astack_pop-some s x.ch (chars st) h,
                          m,
                          fits,
                        )
                        refl
                ]
          ]
        ]
      ]

  -- Where malloc finds the 64 cells and realloc never fails, and for 2 ^ 30 characters at most,
  -- `check_brackets` gives the verdict of the scan.
  pub check_brackets-scan :
      ReallocSucceeds memory
      → (first : List ℕ) → memory.malloc 64 ≡ some first
      → (p : List ℕ) → length p ≤ 2 ^ 30
      → check_brackets memory p ≡ ok (scan p [] 1 1).is_ok
  unfolding check_brackets astack_init
  check_brackets-scan gives first found p few =
      let held : Holds (record { data_ = first; count = 0; capacity = 64 }) [] = record {
        valid = record {
          block = memory.malloc_length 64 first found;
          bounded = omega arith;
          nonzero = omega arith;
        };
        stacked = IsStacked-none first;
      } in
      rw (check_brackets, astack_init, found)
        (brackets_loop-scan gives p _ [] 1 1 held (omega arith))

-- Where both programs find memory for their stacks, and for 2 ^ 30 characters at most, the
-- `check_brackets` of stack.c returns the `ok` of the one of bracket_checker.c.
pub check_brackets_agree :
    (memory : Memory ℕ) (other : Memory BracketInfo)
    → (first : List ℕ) → memory.malloc 64 ≡ some first
    → ReallocSucceeds memory
    → (block : List BracketInfo) → other.malloc 64 ≡ some block
    → ReallocSucceeds other
    → (p : List ℕ) → length p ≤ 2 ^ 30
    → check_brackets memory p ≡ (BracketChecker.check_brackets other p >>= λ r. ok r.is_ok)
check_brackets_agree memory other first found gives block found' gives' p few =
    rw (check_brackets_scans other gives' block found' p few)
      (check_brackets-scan memory gives first found p few)
