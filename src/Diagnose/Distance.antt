-- ===== src/Diagnose/Distance.antt =====
-- The edit distances of internal/diagnose/engine.go. A row of the table is a list, and a loop
-- over the columns walks the rows with it: `previous` below is the rest of that row from the
-- column on, so `previous[column]` and `previous[column+1]` are its first two entries.
pub mod Equivalence
pub mod Metric
use solomon.Prelude.{
  ℕ, ◌+◌, min, ◌&&◌, Option, none, some, List, [], ◌∷◌, map, ◌==◌, if◌then◌else◌, tail, Text,
}

-- The entry of a row at the window's head; the windows are never empty where it is read.
abbrev pub head_or : List ℕ → ℕ → ℕ
head_or [] d = d
head_or (x ∷ xs) d = x

-- 0, 1, …, the row before the first character
abbrev pub row_zero : ℕ → ℕ → List ℕ → List ℕ
row_zero step j [] = j ∷ []
row_zero step j (b ∷ bs) = j ∷ row_zero step (j + step) bs

-- `min(values ...int)` at three values
abbrev pub min_of : ℕ → ℕ → ℕ → ℕ
min_of a b c = min (min a b) c

-- current[j+1]: `last_a` and `last_b` are aRunes[i-1] and bRunes[j-1], none at i = 0 and j = 0.
abbrev pub cell : ℕ → Option ℕ → ℕ → Option ℕ → List ℕ → List ℕ → ℕ → ℕ
cell ra last_a rb last_b previous_previous previous left =
    let cost : ℕ = if ra == rb then 0 else 1 in
    let best = min_of (left + 1) (head_or (tail previous) 0 + 1) (head_or previous 0 + cost) in
    elim last_a [
      | none ↦ best
      | some a ↦ elim last_b [
        | none ↦ best
        | some b ↦ if ra == b && a == rb then min best (head_or previous_previous 0 + 1) else best
      ]
    ]

-- The window of previousPrevious begins at column j-1, so it moves from the second column on.
abbrev pub advance : Option ℕ → List ℕ → List ℕ
advance none row = row
advance (some b) row = tail row

-- The loop over bRunes of one row: the rest of `current` from column j on, where `left` is current[j].
damerau_row : ℕ → Option ℕ → Text → Option ℕ → List ℕ → List ℕ → ℕ → List ℕ
damerau_row ra last_a [] last_b previous_previous previous left = left ∷ []
damerau_row ra last_a (rb ∷ bs) last_b previous_previous previous left =
    left
    ∷ damerau_row ra last_a bs (some rb) (advance last_b previous_previous) (tail previous)
        (cell ra last_a rb last_b previous_previous previous left)

abbrev pub last_or : List ℕ → ℕ → ℕ
last_or [] d = d
last_or (x ∷ xs) d = last_or xs x

-- The loop over aRunes: row i + 1 begins with i + 1.
damerau_rows : Text → ℕ → Option ℕ → Text → List ℕ → List ℕ → ℕ
damerau_rows [] i last_a bs previous_previous previous = last_or previous 0
damerau_rows (ra ∷ xs) i last_a bs previous_previous previous =
    damerau_rows xs (i + 1) (some ra) bs previous
      (damerau_row ra last_a bs none previous_previous previous (i + 1))

unfoldable pub damerau_levenshtein : Text → Text → ℕ
unfolding damerau_row damerau_rows
damerau_levenshtein a b = damerau_rows a 0 none b (map (λ x. 0) (0 ∷ b)) (row_zero 1 0 b)
