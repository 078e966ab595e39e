-- ===== src/Tests/Brackets.antt =====
-- bracket_checker.c.
use textbook_c_ds_deep.Prelude.{ℕ, ◌≡◌, refl, List, [], ◌∷◌, arith, replicate}
use textbook_c_ds_deep.Run.{Returns}
use textbook_c_ds_deep.Memory.{ReallocSucceeds, Memory}
use textbook_c_ds_deep.BracketChecker.{
  BracketInfo, BracketStack, check_brackets, accepted, rejected, mismatched,
}
use textbook_c_ds_deep.BracketChecker.Scan.{scan}
use textbook_c_ds_deep.BracketChecker.Grammar.{Decides, check_brackets-Decides}
use textbook_c_ds_deep.Tests.Allocators.{plenty, resized}

abbrev blank_info : BracketInfo
blank_info = record { ch = 0; line = 0; col = 0 }

abbrev roomy : Memory BracketInfo
roomy = plenty blank_info

-- `([)]`
abbrev crossed : List ℕ
crossed = b'(' ∷ b'[' ∷ b')' ∷ b']' ∷ []

-- `(a)`
abbrev matched : List ℕ
matched = b'(' ∷ b'a' ∷ b')' ∷ []

abbrev empty_stack : BracketStack
empty_stack = record { data_ = replicate 64 blank_info; count = 0; capacity = 64 }

gives : ReallocSucceeds roomy
unfolding plenty
gives a n = (resized blank_info a n, refl)

-- The closing bracket at column 3 meets the one that was opened at column 2.
scan-crossed :
    scan crossed [] 1 1
    ≡ rejected 1 3 (
        mismatched
          (record { ch = b'['; line = 1; col = 2 })
          (record { ch = b')'; line = 1; col = 3 }))
unfolding scan
scan-crossed = refl

scan-matched : scan matched [] 1 1 ≡ accepted
unfolding scan
scan-matched = refl

check_brackets-Decides_example : Returns (Decides roomy matched) (check_brackets roomy matched)
unfolding plenty
check_brackets-Decides_example =
    check_brackets-Decides roomy matched (replicate 64 blank_info) refl gives (omega arith)
