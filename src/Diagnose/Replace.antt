-- ===== src/Diagnose/Replace.antt =====
-- shellTokenRanges, quotedReplacement and replaceTokenOccurrence of internal/diagnose/engine.go.
-- Positions are byte offsets, as those of `range line`.
pub mod RoundTrip
pub mod Ranges
use solomon.Prelude.{
  ℕ, ◌+◌, ◌-◌, ◌<◌, Bool, true, false, not, ◌&&◌, ◌||◌, Option, none, some, List, [], ◌∷◌, ◌++◌,
  ◌==◌, if◌then◌else◌, Text, equal, width, code,
}

pub record TokenRange : Type 0 where
  pub start : ℕ
  pub end : ℕ
  pub value : Text

pub record RangeScanner : Type 0 where
  pub ranges : List TokenRange
  pub value : Text
  pub start : Option ℕ
  pub quote : Option ℕ
  pub escaped : Bool

abbrev pub range_scanner : RangeScanner
range_scanner = record { ranges = []; value = []; start = none; quote = none; escaped = false }

unfoldable pub flush_range : RangeScanner → ℕ → RangeScanner
flush_range s position = elim s.start [
  | none ↦ s
  | some from ↦ record s {
    ranges = s.ranges ++ (record { start = from; end = position; value = s.value }) ∷ [];
    value = [];
    start = none;
  }
]

abbrev pub write_value : RangeScanner → ℕ → RangeScanner
write_value s c = record s { value = s.value ++ c ∷ [] }

-- if start < 0 { start = index }
abbrev pub begin_at : RangeScanner → ℕ → RangeScanner
begin_at s index = record s { start = elim s.start [ none ↦ some index | some from ↦ some from ] }

abbrev in_single : Option ℕ → Bool
in_single none = false
in_single (some q) = q == b'\''

abbrev ends_token : ℕ → Bool
ends_token c =
    c == b' '
    || c == b'\t'
    || c == b';'
    || c == b'&'
    || c == b'|'
    || c == b'('
    || c == b')'
    || c == b'\n'

unfoldable pub range_step : RangeScanner → ℕ → ℕ → RangeScanner
unfolding flush_range
range_step s index c =
    if s.escaped
    then record (write_value s c) { escaped = false }
    else if c == b'\\' && not (in_single s.quote)
    then record (begin_at s index) { escaped = true }
    else elim s.quote [
      | some q ↦ if c == q then record s { quote = none } else write_value s c
      | none ↦
          if c == b'\'' || c == b'"'
          then record (begin_at s index) { quote = some c }
          else if ends_token c
          then flush_range s index
          else write_value (begin_at s index) c
    ]

unfoldable pub range_loop : RangeScanner → ℕ → Text → RangeScanner
range_loop s index [] = flush_range s index
range_loop s index (c ∷ cs) = range_loop (range_step s index c) (index + width c) cs

unfoldable pub shell_token_ranges : Text → List TokenRange
unfolding range_loop
shell_token_ranges line = (range_loop range_scanner 0 line).ranges

-- line[:n] and line[n:] at a byte offset between two code points
unfoldable pub slice_to : ℕ → Text → Text
slice_to n [] = []
slice_to n (c ∷ cs) = if n == 0 then [] else c ∷ slice_to (n - width c) cs

unfoldable pub slice_from : ℕ → Text → Text
slice_from n [] = []
slice_from n (c ∷ cs) = if n == 0 then c ∷ cs else slice_from (n - width c) cs

-- strings.ReplaceAll(replacement, "'", "'\\''")
unfoldable pub escape_single : Text → Text
escape_single [] = []
escape_single (c ∷ cs) =
    if c == b'\'' then b'\'' ∷ b'\\' ∷ b'\'' ∷ b'\'' ∷ escape_single cs else c ∷ escape_single cs

-- the strings.NewReplacer of the double-quoted case
unfoldable pub escape_double : Text → Text
escape_double [] = []
escape_double (c ∷ cs) =
    if c == b'\\' || c == b'"' || c == b'$' || c == b'`'
    then b'\\' ∷ c ∷ escape_double cs
    else c ∷ escape_double cs

abbrev last_is : ℕ → Text → Bool
last_is q [] = false
last_is q (c ∷ []) = c == q
last_is q (c ∷ d ∷ cs) = last_is q (d ∷ cs)

-- raw has at least two bytes, and begins and ends with the quote
abbrev pub wrapped_in : ℕ → Text → Bool
wrapped_in q raw = elim raw [ [] ↦ false | c ∷ cs ↦ c == q && last_is q cs ]

unfoldable pub quoted_replacement : Text → Text → Text
unfolding escape_single escape_double
quoted_replacement raw replacement =
    if wrapped_in b'\'' raw
    then b'\'' ∷ (escape_single replacement ++ b'\'' ∷ [])
    else if wrapped_in b'"' raw
    then b'"' ∷ (escape_double replacement ++ b'"' ∷ [])
    else replacement

abbrev pub splice : Text → TokenRange → Text → Text
splice line token replacement =
    let raw = slice_from token.start (slice_to token.end line) in
    slice_to token.start line ++ (quoted_replacement raw replacement ++ slice_from token.end line)

-- The loop over the ranges; `matched` counts those with the original's value.
unfoldable pub replace_in : Text → Text → Text → ℕ → ℕ → List TokenRange → Option Text
unfolding slice_to slice_from quoted_replacement
replace_in line original replacement occurrence matched [] = none
replace_in line original replacement occurrence matched (token ∷ tokens) =
    let skipped = replace_in line original replacement occurrence matched tokens in
    let later = replace_in line original replacement occurrence (matched + 1) tokens in
    if not (equal token.value original)
    then skipped
    else if not (matched + 1 == occurrence)
    then later
    else some (splice line token replacement)

unfoldable pub replace_token_occurrence : Text → Text → Text → ℕ → Option Text
unfolding replace_in shell_token_ranges
replace_token_occurrence line original replacement occurrence =
    replace_in line original replacement occurrence 0 (shell_token_ranges line)
