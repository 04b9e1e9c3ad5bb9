-- ===== src/Diagnose/Replace/Ranges.antt =====
-- The token ranges lie in the line in order, and a replacement touches the one that is meant.
use solomon.Prelude.{
  ℕ, ◌+◌, ◌≤◌, ◌<◌, ◌≡◌, ◌⊎◌, inl, inr, Option, none, some, List, [], ◌∷◌, ◌++◌, arith,
  if◌then◌else◌, Text, equal, width, width_pos, byte_len,
}
use solomon.Diagnose.Replace.{
  TokenRange, RangeScanner, range_scanner, flush_range, range_step, range_loop, shell_token_ranges,
  splice,
}

-- The ranges follow one another from `lo` on, none is empty, and the last ends by `hi`.
abbrev pub Chain : ℕ → List TokenRange → ℕ → Type 0
Chain lo [] hi = lo ≤ hi
Chain lo (t ∷ ts) hi = (lo ≤ t.start) × (t.start < t.end) × Chain t.end ts hi

Chain-mono :
    (lo : ℕ) (ts : List TokenRange) (hi hi' : ℕ) → hi ≤ hi' → Chain lo ts hi → Chain lo ts hi'
Chain-mono lo [] hi hi' h c = omega arith
Chain-mono lo (t ∷ ts) hi hi' h (p, q, c) = (p, q, Chain-mono t.end ts hi hi' h c)

Chain-concat :
    (lo : ℕ) (ts : List TokenRange) (t : TokenRange)
    → Chain lo ts t.start
    → t.start < t.end
    → Chain lo (ts ++ t ∷ []) t.end
Chain-concat lo [] t c h = (c, h, omega arith)
Chain-concat lo (u ∷ ts) t (p, q, c) h = (p, q, Chain-concat u.end ts t c h)

-- Before the character at `index`: the ranges so far end by it, and by the open token's start.
abbrev Open : List TokenRange → ℕ → Option ℕ → Type 0
Open ranges index none = Chain 0 ranges index
Open ranges index (some from) = Chain 0 ranges from × (from < index)

abbrev IsAt : ℕ → RangeScanner → Type 0
IsAt index s = Open s.ranges index s.start

Open-mono :
    (ranges : List TokenRange) (index index' : ℕ) (start : Option ℕ)
    → index ≤ index'
    → Open ranges index start
    → Open ranges index' start
Open-mono ranges index index' none h o = Chain-mono 0 ranges index index' h o
Open-mono ranges index index' (some from) h (c, l) = (c, omega arith)

-- What a flush makes of the ranges and of the open token.
abbrev flushed : List TokenRange → Text → ℕ → Option ℕ → List TokenRange
flushed ranges value index none = ranges
flushed ranges value index (some from) =
    ranges ++ (record { start = from; end = index; value = value }) ∷ []

flushed-Open :
    (ranges : List TokenRange) (value : Text) (index : ℕ) (start : Option ℕ)
    → Open ranges index start
    → Open (flushed ranges value index start) index none
flushed-Open ranges value index none o = o
flushed-Open ranges value index (some from) (c, l) = Chain-concat 0 ranges _ c l

-- Opening a token at the character leaves room for it.
begin-Open :
    (ranges : List TokenRange) (index later : ℕ) (start : Option ℕ)
    → index < later
    → Open ranges index start
    → Open ranges later (elim start [ none ↦ some index | some from ↦ some from ])
begin-Open ranges index later none h o = (o, h)
begin-Open ranges index later (some from) h (c, l) = (c, omega arith)

abbrev begun : ℕ → Option ℕ → Option ℕ
begun index start = elim start [ none ↦ some index | some from ↦ some from ]

-- A step keeps the ranges, opens a token, or closes the open one.
step_effect :
    (s : RangeScanner) (index c : ℕ)
    → let t = range_step s index c in
      ((t.ranges ≡ s.ranges) × (t.start ≡ s.start)
        ⊎ (t.ranges ≡ s.ranges) × (t.start ≡ begun index s.start))
      ⊎ (t.ranges ≡ flushed s.ranges s.value index s.start) × (t.start ≡ none)
unfolding range_step
step_effect s index c = ground arith

range_step-IsAt :
    (s : RangeScanner) (index c later : ℕ)
    → index < later
    → IsAt index s
    → IsAt later (range_step s index c)
range_step-IsAt s index c later h o = elim (step_effect s index c) [
  | inl (inl (e, f)) ↦ rw (e, f) (Open-mono s.ranges index later s.start (omega arith) o)
  | inl (inr (e, f)) ↦ rw (e, f) (begin-Open s.ranges index later s.start h o)
  | inr (e, f) ↦
      rw (e, f)
        (Open-mono (flushed s.ranges s.value index s.start) index later none (omega arith)
          (flushed-Open s.ranges s.value index s.start o))
]

flush_range-ranges :
    (s : RangeScanner) (index : ℕ)
    → (flush_range s index).ranges ≡ flushed s.ranges s.value index s.start
unfolding flush_range
flush_range-ranges s index = ground arith

range_loop-Chain :
    (s : RangeScanner) (index : ℕ) (line : Text)
    → IsAt index s
    → Chain 0 (range_loop s index line).ranges (index + byte_len line)
unfolding range_loop byte_len
range_loop-Chain s index [] o = rw (flush_range-ranges s index) (
    Chain-mono 0 (flushed s.ranges s.value index s.start) index (index + 0) (omega arith)
      (flushed-Open s.ranges s.value index s.start o))
range_loop-Chain s index (c ∷ cs) o =
    let next = range_step-IsAt s index c (index + width c) (omega (arith, width_pos c)) o in
    Chain-mono 0 (range_loop (range_step s index c) (index + width c) cs).ranges
      (index + width c + byte_len cs) (index + (width c + byte_len cs)) (omega arith)
      (range_loop-Chain (range_step s index c) (index + width c) cs next)

-- The ranges of a line are not empty, follow one another without overlap, and end within the
-- line's bytes: every slice that the program takes at them is in bounds.
pub shell_token_ranges-Chain : (line : Text) → Chain 0 (shell_token_ranges line) (byte_len line)
unfolding shell_token_ranges
shell_token_ranges-Chain line =
    Chain-mono 0 (range_loop range_scanner 0 line).ranges (0 + byte_len line) (byte_len line)
      (omega arith) (range_loop-Chain range_scanner 0 line (omega arith))

-- The ranges whose value is the original, in order.
abbrev pub occurrences : Text → List TokenRange → List TokenRange
occurrences original [] = []
occurrences original (t ∷ ts) =
    if equal t.value original then t ∷ occurrences original ts else occurrences original ts

abbrev pub spliced : Text → Text → Option TokenRange → Option Text
spliced line replacement none = none
spliced line replacement (some t) = some (splice line t replacement)
