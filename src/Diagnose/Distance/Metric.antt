-- ===== src/Diagnose/Distance/Metric.antt =====
-- The distance is a bounded, symmetric measure that is zero on equal texts alone.
use solomon.Prelude.{
  ℕ, ◌+◌, ◌≤◌, max, ◌≡◌, refl, sym, ap, ◌∙◌, ◌↔◌, Bool, ◌&&◌, [], ◌∷◌, reverse, arith, ◌==◌, length,
  length-reverse, Text,
}
use mathlib.Core.List.{reverse-reverse}
use solomon.Diagnose.Distance.{damerau_levenshtein, min_of}
use solomon.Diagnose.Distance.Equivalence.{osa, damerau_levenshtein-osa}

min_of_comm : (a b c : ℕ) → min_of a b c ≡ min_of b a c
min_of_comm a b c = omega arith

eq_comm : (x y : ℕ) → (x == y) ≡ (y == x)
eq_comm x y = ground arith

and_comm : (p q : Bool) → (p && q) ≡ (q && p)
and_comm p q = ground arith

osa_comm : (xs ys : Text) → osa xs ys ≡ osa ys xs
unfolding osa
osa_comm [] [] = refl
osa_comm [] (y ∷ ys) = refl
osa_comm (x ∷ xs) [] = refl
osa_comm (x ∷ []) (y ∷ []) = ground arith
osa_comm (x ∷ []) (y ∷ y' ∷ ys) = ground (arith, osa_comm (x ∷ []) (y' ∷ ys))
osa_comm (x ∷ x' ∷ xs) (y ∷ []) = ground (arith, osa_comm (x' ∷ xs) (y ∷ []))
osa_comm (x ∷ x' ∷ xs) (y ∷ y' ∷ ys) = rw (
  osa_comm (x ∷ x' ∷ xs) (y' ∷ ys),
  osa_comm (x' ∷ xs) (y ∷ y' ∷ ys),
  osa_comm (x' ∷ xs) (y' ∷ ys),
  osa_comm xs ys,
  eq_comm x y,
  eq_comm x y',
  eq_comm x' y,
  and_comm (y' == x) (y == x'),
  min_of_comm (osa (y' ∷ ys) (x ∷ x' ∷ xs) + 1),
)

osa-le : (xs ys : Text) → osa xs ys ≤ max (length xs) (length ys)
unfolding osa
osa-le [] ys = omega arith
osa-le (x ∷ xs) [] = omega arith
osa-le (x ∷ []) (y ∷ ys) = ground arith
osa-le (x ∷ x' ∷ xs) (y ∷ []) = ground arith
osa-le (x ∷ x' ∷ xs) (y ∷ y' ∷ ys) = ground (arith, osa-le (x' ∷ xs) (y' ∷ ys))

osa_gap : (xs ys : Text) → length xs ≤ osa xs ys + length ys
unfolding osa
osa_gap [] ys = omega arith
osa_gap (x ∷ xs) [] = omega arith
osa_gap (x ∷ []) (y ∷ ys) = ground arith
osa_gap (x ∷ x' ∷ xs) (y ∷ []) = ground (arith, osa_gap (x' ∷ xs) (y ∷ []))
osa_gap (x ∷ x' ∷ xs) (y ∷ y' ∷ ys) = ground (
  arith,
  osa_gap (x ∷ x' ∷ xs) (y' ∷ ys),
  osa_gap (x' ∷ xs) (y ∷ y' ∷ ys),
  osa_gap (x' ∷ xs) (y' ∷ ys),
  osa_gap xs ys,
)

osa_same : (xs : Text) → osa xs xs ≡ 0
unfolding osa
osa_same [] = refl
osa_same (x ∷ []) = ground arith
osa_same (x ∷ x' ∷ xs) = ground (arith, osa_same (x' ∷ xs))

osa_zero : (xs ys : Text) → osa xs ys ≡ 0 → xs ≡ ys
unfolding osa
osa_zero [] [] h = refl
osa_zero [] (y ∷ ys) h = absurd (omega arith)
osa_zero (x ∷ xs) [] h = absurd (omega arith)
osa_zero (x ∷ []) (y ∷ ys) h = ground (arith, osa_zero [] ys)
osa_zero (x ∷ x' ∷ xs) (y ∷ []) h = ground arith
osa_zero (x ∷ x' ∷ xs) (y ∷ y' ∷ ys) h = ground (arith, osa_zero (x' ∷ xs) (y' ∷ ys))

-- The distance does not depend on the order of the two words.
pub damerau_levenshtein_comm : (a b : Text) → damerau_levenshtein a b ≡ damerau_levenshtein b a
damerau_levenshtein_comm a b =
    damerau_levenshtein-osa a b
    ∙ osa_comm (reverse a) (reverse b)
    ∙ sym (damerau_levenshtein-osa b a)

-- The distance is at least the difference of the lengths and at most the greater length.
pub damerau_levenshtein_bounds :
    (a b : Text)
    → (length a ≤ damerau_levenshtein a b + length b)
      × (damerau_levenshtein a b ≤ max (length a) (length b))
damerau_levenshtein_bounds a b = rw damerau_levenshtein-osa (
  omega (
    arith,
    osa_gap (reverse a) (reverse b),
    osa-le (reverse a) (reverse b),
    length-reverse a,
    length-reverse b,
  ),
  omega (arith, osa-le (reverse a) (reverse b), length-reverse a, length-reverse b),
)

-- The distance is zero exactly when the two words are the same.
pub damerau_levenshtein_zero : (a b : Text) → (damerau_levenshtein a b ≡ 0) ↔ (a ≡ b)
damerau_levenshtein_zero a b = (
  λ h. reverse_cancel (osa_zero (reverse a) (reverse b) (sym (damerau_levenshtein-osa a b) ∙ h)),
  λ e. damerau_levenshtein-osa a b ∙ rw e (osa_same (reverse b)),
)
  where
    reverse_cancel : reverse a ≡ reverse b → a ≡ b
    reverse_cancel e = sym (reverse-reverse a) ∙ ap reverse e ∙ reverse-reverse b
