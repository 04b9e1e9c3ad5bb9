-- ===== src/Diagnose/Rank.antt =====
-- The candidates for a word of internal/diagnose/engine.go: their order, the nearest one, and the
-- confidence in it. A float64 confidence is kept as the fraction that it rounds: every threshold
-- is a multiple of 1/100, and rounding does not carry such a fraction across one.
pub mod Nearest
use solomon.Prelude.{
  ℕ, ◌+◌, ◌-◌, ◌*◌, max, Bool, true, false, not, ◌&&◌, ◌||◌, List, [], ◌∷◌, ltb, leb, ◌==◌,
  if◌then◌else◌, length, tail, Text, codes, elem, text_lt, lower_rune, to_lower, sort, ◌/◌,
}
use solomon.Diagnose.Distance.{damerau_levenshtein, row_zero, last_or, head_or, min_of}

abbrev keyboard_rows : List Text
keyboard_rows =
    codes "1234567890-=" ∷ codes "qwertyuiop[]\\" ∷ codes "asdfghjkl;'" ∷ codes "zxcvbnm,./" ∷ []

-- The difference of two positions, as abs(left - right).
abbrev abs_diff : ℕ → ℕ → ℕ
abs_diff a b = if ltb a b then b - a else a - b

-- Is `right` in the columns from `column` on, at most one away from `left_column`?
near_in_row : ℕ → ℕ → ℕ → Text → Bool
near_in_row right left_column column [] = false
near_in_row right left_column column (key ∷ keys) =
    key == right && leb (abs_diff left_column column) 1
    || near_in_row right left_column (column + 1) keys

near_in_rows : ℕ → ℕ → ℕ → ℕ → List Text → Bool
near_in_rows right left_row left_column row [] = false
near_in_rows right left_row left_column row (keys ∷ rows) =
    leb (abs_diff left_row row) 1 && near_in_row right left_column 0 keys
    || near_in_rows right left_row left_column (row + 1) rows

adjacent_in_row : ℕ → ℕ → ℕ → ℕ → Text → Bool
adjacent_in_row left right row column [] = false
adjacent_in_row left right row column (key ∷ keys) =
    key == left && near_in_rows right row column 0 keyboard_rows
    || adjacent_in_row left right row (column + 1) keys

adjacent_in_rows : ℕ → ℕ → ℕ → List Text → Bool
adjacent_in_rows left right row [] = false
adjacent_in_rows left right row (keys ∷ rows) =
    adjacent_in_row left right row 0 keys || adjacent_in_rows left right (row + 1) rows

pub keyboard_adjacent : ℕ → ℕ → Bool
unfolding near_in_row near_in_rows adjacent_in_row adjacent_in_rows lower_rune
keyboard_adjacent left right = adjacent_in_rows (lower_rune left) (lower_rune right) 0 keyboard_rows

-- The loop over bRunes of one row, with the window of `previous` from the column on.
keyboard_row : ℕ → Text → List ℕ → ℕ → List ℕ
unfolding keyboard_adjacent
keyboard_row left [] previous current = current ∷ []
keyboard_row left (right ∷ bs) previous current =
    let substitution : ℕ =
      if left == right then 0 else if keyboard_adjacent left right then 1 else 2 in
    current
    ∷ keyboard_row left bs (tail previous)
        (min_of (current + 2) (head_or (tail previous) 0 + 2) (head_or previous 0 + substitution))

keyboard_rows_from : Text → ℕ → Text → List ℕ → ℕ
unfolding keyboard_row
keyboard_rows_from [] row bs previous = last_or previous 0
keyboard_rows_from (left ∷ xs) row bs previous =
    keyboard_rows_from xs (row + 1) bs (keyboard_row left bs previous ((row + 1) * 2))

unfoldable pub keyboard_adjacency_distance : Text → Text → ℕ
unfolding keyboard_rows_from to_lower
keyboard_adjacency_distance a b =
    keyboard_rows_from (to_lower a) 0 (to_lower b) (row_zero 2 0 (to_lower b))

pub record RankedCandidate : Type 0 where
  pub value : Text
  pub edit_distance : ℕ
  pub keyboard_distance : ℕ

-- The order of sort.Slice in rankCandidates.
unfoldable pub ranks_before : RankedCandidate → RankedCandidate → Bool
ranks_before left right =
    if not (left.edit_distance == right.edit_distance)
    then ltb left.edit_distance right.edit_distance
    else if not (left.keyboard_distance == right.keyboard_distance)
    then ltb left.keyboard_distance right.keyboard_distance
    else text_lt left.value right.value

abbrev pub ranked : Text → Text → RankedCandidate
ranked value candidate = record {
  value = candidate;
  edit_distance = damerau_levenshtein value candidate;
  keyboard_distance = keyboard_adjacency_distance value candidate;
}

-- The loop that measures each candidate once.
unfoldable pub measure : Text → List Text → List Text → List RankedCandidate
measure value seen [] = []
measure value seen (candidate ∷ candidates) =
    let again = measure value seen candidates in
    let first = ranked value candidate ∷ measure value (candidate ∷ seen) candidates in
    if elem candidate seen then again else first

unfoldable pub rank_candidates : Text → List Text → List RankedCandidate
unfolding measure
rank_candidates value candidates = sort ranks_before (measure value [] candidates)

abbrev pub best_of : List RankedCandidate → Text × ℕ
best_of [] = ([], 0)
best_of (r ∷ rs) = (r.value, r.edit_distance)

unfoldable pub nearest : Text → List Text → Text × ℕ
unfolding rank_candidates
nearest value candidates = best_of (rank_candidates value candidates)

unfoldable pub max_distance : Text → ℕ
max_distance value = if leb (length value) 4 then 1 else if leb (length value) 8 then 2 else 3

-- 1 - distance / total, by its numerator and its denominator.
pub record Confidence : Type 0 where
  pub part : ℕ
  pub total : ℕ

unfoldable pub confidence : Text → Text → Confidence
confidence a b = record {
  part = max (length a) (length b) - damerau_levenshtein a b;
  total = max (length a) (length b);
}

-- The comparison with percent / 100. A denominator of 0 is a NaN, which is at least nothing.
abbrev pub at_least : Confidence → ℕ → Bool
at_least c percent = ltb 0 c.total && leb (percent * c.total) (100 * c.part)

pub data RepairClass : Type 0 where
  no_class command_class semantic_class path_class : RepairClass

abbrev pub is_known_repair_class : RepairClass → Bool
is_known_repair_class no_class = false
is_known_repair_class _ = true

-- in percent
abbrev pub confidence_threshold : RepairClass → ℕ
confidence_threshold command_class = 60
confidence_threshold semantic_class = 75
confidence_threshold path_class = 90
confidence_threshold no_class = 100

unfoldable pub meets_confidence_threshold : RepairClass → Confidence → Bool
meets_confidence_threshold class value =
    is_known_repair_class class && at_least value (confidence_threshold class)
