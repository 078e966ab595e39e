-- ===== src/BracketChecker/Grammar.antt =====
-- What the checker accepts, as a grammar.
use mathlib.Core.List.{append_assoc, append-nil}
use textbook_c_ds_deep.Prelude.{
  ℕ, ◌+◌, ◌≤◌, ◌^◌, ◌≡◌, refl, sym, ◌∙◌, ap, ◌↔◌, true, false, some, List, [], ◌∷◌, ◌++◌, arith,
  length, ◌==◌, inl, inr, ◌⊎◌, Bool-cases,
}
use textbook_c_ds_deep.Run.{Returns, returns}
use textbook_c_ds_deep.Memory.{ReallocSucceeds, Memory}
use textbook_c_ds_deep.BracketChecker.{
  BracketInfo, is_open, is_close, matching_open, CheckResult, check_brackets,
}
use textbook_c_ds_deep.BracketChecker.Scan.{check_brackets_scans, scan}

-- The bracket that opens, and the one that closes it.
pub data Pair : ℕ → ℕ → Type 0 where
  round : Pair b'(' b')'
  square : Pair b'[' b']'
  curly : Pair b'{' b'}'

-- None of the six brackets.
pub record IsPlain (c : ℕ) : Type 0 where
  pub no_round : ((c == b'(') ≡ false) × ((c == b')') ≡ false)
  pub no_square : ((c == b'[') ≡ false) × ((c == b']') ≡ false)
  pub no_curly : ((c == b'{') ≡ false) × ((c == b'}') ≡ false)

-- A source whose brackets match: nothing, one more character that is no bracket, or a bracket, a
-- source whose brackets match, the bracket that closes it, and another such source.
pub data Balanced : List ℕ → Type 0 where
  nothing : Balanced []
  plain : (c : ℕ) (s : List ℕ) → IsPlain c → Balanced s → Balanced (c ∷ s)
  wrap :
      (o : ℕ) (s : List ℕ) (c : ℕ) (t : List ℕ)
      → Pair o c
      → Balanced s
      → Balanced t
      → Balanced (o ∷ s ++ c ∷ t)

-- The tests of the code know the brackets.
IsPlain-tests : (c : ℕ) → IsPlain c → (is_open c ≡ false) × (is_close c ≡ false)
IsPlain-tests c p = (ground (arith, p), ground (arith, p))

Pair-tests : (o c : ℕ) → Pair o c → (is_open o ≡ true) × (is_close c ≡ true) × (o ≡ matching_open c)
Pair-tests _ _ round = (refl, refl, refl)
Pair-tests _ _ square = (refl, refl, refl)
Pair-tests _ _ curly = (refl, refl, refl)

tests-IsPlain : (c : ℕ) → is_open c ≡ false → is_close c ≡ false → IsPlain c
tests-IsPlain c oc cl = record {
  no_round = (ground (arith, oc), ground (arith, cl));
  no_square = (ground (arith, oc), ground (arith, cl));
  no_curly = (ground (arith, oc), ground (arith, cl));
}

closed_by : (c : ℕ) → is_close c ≡ true → (c ≡ b')') ⊎ ((c ≡ b']') ⊎ (c ≡ b'}'))
closed_by c cl = ground (arith, cl)

tests-Pair : (o c : ℕ) → is_close c ≡ true → o ≡ matching_open c → Pair o c
tests-Pair o c cl m = elim (closed_by c cl) [
  | inl e ↦ let here : o ≡ b'(' = rw e at m in rw (e, here) round
  | inr (inl e) ↦ let here : o ≡ b'[' = rw e at m in rw (e, here) square
  | inr (inr e) ↦ let here : o ≡ b'{' = rw e at m in rw (e, here) curly
]

-- What is to come closes the open brackets, the last opened first.
Closes : List BracketInfo → List ℕ → Type 0
Closes [] p = Balanced p
Closes (x ∷ st) p =
    (s : List ℕ) × (c : ℕ) × (t : List ℕ) × (p ≡ s ++ c ∷ t)
    × Balanced s
    × (is_close c ≡ true)
    × (x.ch ≡ matching_open c)
    × Closes st t

plain-Closes :
    (c : ℕ) (st : List BracketInfo) (p : List ℕ)
    → is_open c ≡ false
    → is_close c ≡ false
    → Closes st p
    → Closes st (c ∷ p)
unfolding Closes
plain-Closes c [] p oc cl b = plain c p (tests-IsPlain c oc cl) b
plain-Closes c (x ∷ st) p oc cl (s, d, t, e, b, k, m, rest) =
    (c ∷ s, d, t, ap (◌∷◌ c) e, plain c s (tests-IsPlain c oc cl) b, k, m, rest)

wrap-Closes :
    (o : ℕ) (st : List BracketInfo) (s : List ℕ) (c : ℕ) (t : List ℕ)
    → is_open o ≡ true
    → is_close c ≡ true
    → o ≡ matching_open c
    → Balanced s
    → Closes st t
    → Closes st (o ∷ s ++ c ∷ t)
unfolding Closes
wrap-Closes o [] s c t oc cl m b rest = wrap o s c t (tests-Pair o c cl m) b rest
wrap-Closes o (x ∷ st) s c t oc cl m b (s2, d, t2, e, b2, k, m2, rest) = (
  o ∷ s ++ c ∷ s2,
  d,
  t2,
  ap (λ u. o ∷ s ++ c ∷ u) e ∙ sym (append_assoc (o ∷ s) (c ∷ s2) (d ∷ t2)),
  wrap o s c s2 (tests-Pair o c cl m) b b2,
  k,
  m2,
  rest,
)

-- The scan accepts.
abbrev Accepts : List ℕ → List BracketInfo → ℕ → ℕ → Type 0
Accepts p st line col = (scan p st line col).is_ok ≡ true

module _ (c : ℕ) where
  pub newline-not_bracket : (c == b'\n') ≡ true → (is_open c ≡ false) × (is_close c ≡ false)
  newline-not_bracket h = (ground arith, ground arith)

  open-not_other : is_open c ≡ true → ((c == b'\n') ≡ false) × (is_close c ≡ false)
  open-not_other h = (ground arith, ground arith)

  close-not_other : is_close c ≡ true → ((c == b'\n') ≡ false) × (is_open c ≡ false)
  close-not_other h = (ground arith, ground arith)

  same_number : (n : ℕ) → (n == c) ≡ true → n ≡ c
  same_number n h = ground arith

-- The round at a closing bracket.
closed-Closes :
    (c : ℕ) (p : List ℕ) (st : List BracketInfo) (line col : ℕ)
    → is_close c ≡ true
    → ((st' : List BracketInfo) → Accepts p st' line (col + 1) → Closes st' p)
    → Accepts (c ∷ p) st line col
    → Closes st (c ∷ p)
unfolding Closes scan
closed-Closes c p [] line col closes later h =
    let (other, opens) = close-not_other c closes in
    let no : false ≡ true = rw (other, opens, closes) at h in absurd cc
closed-Closes c p (x ∷ st) line col closes later h =
    let (other, opens) = close-not_other c closes in
    elim (Bool-cases (x.ch == matching_open c)) [
      | inl m ↦ (
        [],
        c,
        p,
        refl,
        nothing,
        closes,
        same_number (matching_open c) x.ch m,
        later st (rw (other, opens, closes, m) at h),
      )
      | inr m ↦ let no : false ≡ true = rw (other, opens, closes, m) at h in absurd cc
    ]

-- What the scan accepts closes the open brackets.
Accepts-Closes :
    (p : List ℕ) (st : List BracketInfo) (line col : ℕ) → Accepts p st line col → Closes st p
unfolding Closes scan
Accepts-Closes [] [] line col h = nothing
Accepts-Closes [] (x ∷ st) line col h = absurd cc
Accepts-Closes (c ∷ p) st line col h = elim (Bool-cases (c == b'\n')) [
  | inl newline ↦
      let (oc, cl) = newline-not_bracket c newline in
      plain-Closes c st p oc cl (Accepts-Closes p st (line + 1) 1 (rw newline at h))
  | inr other ↦ elim (Bool-cases (is_open c)) [
    | inl opens ↦
        let here : BracketInfo = record { ch = c; line = line; col = col } in
        let (s, d, t, e, b, closes, m, rest) =
          Accepts-Closes p (here ∷ st) line (col + 1) (rw (other, opens) at h) in
        rw e (wrap-Closes c st s d t opens closes m b rest)
    | inr opens ↦ elim (Bool-cases (is_close c)) [
      | inl closes ↦
          closed-Closes c p st line col closes (λ st'. Accepts-Closes p st' line (col + 1)) h
      | inr closes ↦
          plain-Closes c st p opens closes
            (Accepts-Closes p st line (col + 1) (rw (other, opens, closes) at h))
    ]
  ]
]

number_same : (n : ℕ) → (n == n) ≡ true
number_same n = ground arith

-- A source whose brackets match does not change what the scan accepts after it.
Accepts-Balanced :
    (s p : List ℕ) (st : List BracketInfo)
    → Balanced s
    → ((line col : ℕ) → Accepts p st line col)
    → (line col : ℕ) → Accepts (s ++ p) st line col
unfolding scan
Accepts-Balanced _ p st nothing later line col = later line col
Accepts-Balanced _ p st (plain c s p' b) later line col =
    let (oc, cl) = IsPlain-tests c p' in
    elim (Bool-cases (c == b'\n')) [
      | inl newline ↦ rw newline (Accepts-Balanced s p st b later (line + 1) 1)
      | inr other ↦ rw (other, oc, cl) (Accepts-Balanced s p st b later line (col + 1))
    ]
Accepts-Balanced _ p st (wrap o s c t pr b b') later line col =
    let (oc, cl, m) = Pair-tests o c pr in
    let here : BracketInfo = record { ch = o; line = line; col = col } in
    let after : (l k : ℕ) → Accepts (c ∷ t ++ p) (here ∷ st) l k = λ l k.
      let (other, opens) = close-not_other c cl in
      let match_ : (o == matching_open c) ≡ true = rw m (number_same (matching_open c)) in
      rw (other, opens, cl, match_) (Accepts-Balanced t p st b' later l (k + 1)) in
    let (other, closes) = open-not_other o oc in
    rw (other, oc, append_assoc s (c ∷ t) p)
      (Accepts-Balanced s (c ∷ t ++ p) (here ∷ st) b after line (col + 1))

Balanced-Accepts : (s : List ℕ) → Balanced s → Accepts s [] 1 1
unfolding scan
Balanced-Accepts s b = rw (append-nil s) at (Accepts-Balanced s [] [] b (λ line col. refl) 1 1)

module _ (memory : Memory BracketInfo) where
  -- What a call of `check_brackets` gives: it accepts exactly the sources whose brackets match.
  abbrev pub Decides : List ℕ → CheckResult → Type 0
  Decides source r = (r.is_ok ≡ true) ↔ Balanced source

  -- With memory for the stack, and no more than 2 ^ 30 bytes of source, the checker returns, and it
  -- accepts the source exactly when the grammar derives it.
  pub check_brackets-Decides :
      (source : List ℕ)
      → (first : List BracketInfo) → memory.malloc 64 ≡ some first
      → ReallocSucceeds memory
      → length source ≤ 2 ^ 30
      → Returns (Decides source) (check_brackets memory source)
  unfolding Closes
  check_brackets-Decides source first found gives few =
      rw (check_brackets_scans memory gives first found source few)
        (returns (Accepts-Closes source [] 1 1, Balanced-Accepts source))
