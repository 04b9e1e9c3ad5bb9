-- ===== src/Diagnose/Distance/Equivalence.antt =====
-- The table of damerauLevenshtein against the recursive definition of the distance.
use solomon.Prelude.{
  ℕ, suc, ◌+◌, min, ◌≡◌, refl, ◌&&◌, List, [], ◌∷◌, ◌==◌, if◌then◌else◌, length, head?, Text, ap,
  map, reverse, append-nil, append_assoc, ◌++◌, ◌∙◌,
}
use native.Mathlib.Numerals.{add-one}
use mathlib.Core.List.{reverse-append}
use solomon.Diagnose.Distance.{
  head_or, row_zero, min_of, cell, advance, last_or, damerau_row, damerau_rows, damerau_levenshtein,
}

-- The optimal string alignment distance of two texts given back to front: insertion, deletion,
-- substitution, and the exchange of two neighbours, each at cost 1.
abbrev cost_of : ℕ → ℕ → ℕ
cost_of x y = if x == y then 0 else 1

unfoldable pub osa : Text → Text → ℕ
osa [] ys = length ys
osa (x ∷ xs) [] = suc (length xs)
osa (x ∷ []) (y ∷ ys) = min_of (osa (x ∷ []) ys + 1) (osa [] (y ∷ ys) + 1) (osa [] ys + cost_of x y)
osa (x ∷ x' ∷ xs) (y ∷ []) =
    min_of (osa (x ∷ x' ∷ xs) [] + 1) (osa (x' ∷ xs) (y ∷ []) + 1) (osa (x' ∷ xs) [] + cost_of x y)
osa (x ∷ x' ∷ xs) (y ∷ y' ∷ ys) =
    let best =
      min_of (osa (x ∷ x' ∷ xs) (y' ∷ ys) + 1) (osa (x' ∷ xs) (y ∷ y' ∷ ys) + 1)
        (osa (x' ∷ xs) (y' ∷ ys) + cost_of x y) in
    if x == y' && x' == y then min best (osa xs ys + 1) else best

-- A row of the table from the column of `ys` on, where `bs` are the characters still to come.
osa_row : Text → Text → Text → List ℕ
osa_row xs ys [] = osa xs ys ∷ []
osa_row xs ys (b ∷ bs) = osa xs ys ∷ osa_row xs (b ∷ ys) bs

-- The window of previousPrevious: from one column before that of `ys`.
abbrev two_up : Text → Text → Text → List ℕ → List ℕ
two_up [] ys bs junk = junk
two_up (x ∷ xs) [] bs junk = osa_row xs [] bs
two_up (x ∷ xs) (y ∷ ys) bs junk = osa_row xs ys (y ∷ bs)

head_or-osa_row : (xs ys bs : Text) (d : ℕ) → head_or (osa_row xs ys bs) d ≡ osa xs ys
unfolding osa_row
head_or-osa_row xs ys [] d = refl
head_or-osa_row xs ys (b ∷ bs) d = refl

cell-osa :
    (x b : ℕ) (xs ys bs : Text) (junk : List ℕ)
    → cell x
        (head? xs)
        b
        (head? ys)
        (two_up xs ys (b ∷ bs) junk)
        (osa_row xs ys (b ∷ bs))
        (osa (x ∷ xs) ys)
      ≡ osa (x ∷ xs) (b ∷ ys)
unfolding osa_row
cell-osa x b [] ys bs junk = simp head_or-osa_row (unfold osa in refl)
cell-osa x b (x' ∷ xs) [] bs junk = simp head_or-osa_row (unfold osa in refl)
cell-osa x b (x' ∷ xs) (y ∷ ys) bs junk = simp head_or-osa_row (unfold osa in refl)

row_step :
    (x b : ℕ) (xs ys bs : Text) (junk : List ℕ)
    → (junk' : List ℕ) × (advance (head? ys) (two_up xs ys (b ∷ bs) junk)
        ≡ two_up xs (b ∷ ys) bs junk')
unfolding osa_row
row_step x b [] ys bs junk = (advance (head? ys) junk, refl)
row_step x b (x' ∷ xs) [] bs junk = (junk, refl)
row_step x b (x' ∷ xs) (y ∷ ys) bs junk = (junk, refl)

-- One round of the outer loop turns the row of `xs` into that of `x ∷ xs`.
damerau_row-osa_row :
    (x : ℕ) (xs ys bs : Text) (junk : List ℕ)
    → damerau_row x
        (head? xs)
        bs
        (head? ys)
        (two_up xs ys bs junk)
        (osa_row xs ys bs)
        (osa (x ∷ xs) ys)
      ≡ osa_row (x ∷ xs) ys bs
unfolding damerau_row osa osa_row row_step
damerau_row-osa_row x xs ys [] junk = refl
damerau_row-osa_row x xs ys (b ∷ bs) junk =
    let (junk', e) = row_step x b xs ys bs junk in
    rw (cell-osa x b xs ys bs junk, e)
      (ap (λ (r : List ℕ). osa (x ∷ xs) ys ∷ r) (damerau_row-osa_row x xs (b ∷ ys) bs junk'))

osa-nil : (xs : Text) → osa xs [] ≡ length xs
unfolding osa
osa-nil [] = refl
osa-nil (x ∷ xs) = refl

reverse_onto : (b : ℕ) (bs ys : Text) → reverse (b ∷ bs) ++ ys ≡ reverse bs ++ b ∷ ys
reverse_onto b bs ys = rw (reverse-append (b ∷ []) bs) (append_assoc (reverse bs) (b ∷ []) ys)

osa-nil-cons : (x : ℕ) (xs : Text) → osa (x ∷ xs) [] ≡ suc (length xs)
unfolding osa
osa-nil-cons x xs = refl

last_or-osa_row :
    (xs ys bs : Text) (d : ℕ) → last_or (osa_row xs ys bs) d ≡ osa xs (reverse bs ++ ys)
unfolding osa_row
last_or-osa_row xs ys [] d = refl
last_or-osa_row xs ys (b ∷ bs) d = rw reverse_onto (last_or-osa_row xs (b ∷ ys) bs (osa xs ys))

damerau_rows-osa :
    (a xs bs : Text) (junk : List ℕ)
    → damerau_rows a (length xs) (head? xs) bs (two_up xs [] bs junk) (osa_row xs [] bs)
      ≡ osa (reverse a ++ xs) (reverse bs)
unfolding damerau_rows osa
damerau_rows-osa [] xs bs junk = last_or-osa_row xs [] bs 0 ∙ rw append-nil
damerau_rows-osa (x ∷ a) xs bs junk =
    rw (reverse_onto x a xs, add-one, ← osa-nil-cons x xs, damerau_row-osa_row x xs [] bs junk)
      (damerau_rows-osa a (x ∷ xs) bs junk)

row_zero-osa_row : (bs ys : Text) → row_zero 1 (length ys) bs ≡ osa_row [] ys bs
unfolding osa_row osa
row_zero-osa_row [] ys = refl
row_zero-osa_row (b ∷ bs) ys =
    ap (λ (r : List ℕ). length ys ∷ r) (rw add-one (row_zero-osa_row bs (b ∷ ys)))

-- The two-row table computes the optimal string alignment distance, for all texts.
pub damerau_levenshtein-osa : (a b : Text) → damerau_levenshtein a b ≡ osa (reverse a) (reverse b)
unfolding damerau_levenshtein
damerau_levenshtein-osa a b =
    rw (row_zero-osa_row b []) (rw append-nil at (damerau_rows-osa a [] b (0 ∷ map (λ x. 0) b)))
