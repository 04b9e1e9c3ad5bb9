-- ===== src/Packs/Versions/Preorder.antt =====
-- The comparisons of numbers, parts and prereleases are preorders.
use Prim.Native.Nat.{Ordering}
use solomon.Prelude.{◌≡◌, refl, Bool, true, false, List, [], ◌∷◌, arith, Text}
use solomon.Packs.Versions.{
  ℤ, Number, compare_ints, and_then, atoi, compare_numbers, compare_parts, compare_prerelease,
}

-- The order the other way round.
abbrev pub swap : Ordering → Ordering
swap Ordering.lt = Ordering.gt
swap Ordering.eq = Ordering.eq
swap Ordering.gt = Ordering.lt

abbrev pub is_gt : Ordering → Bool
is_gt Ordering.gt = true
is_gt other = false

abbrev is_le : Ordering → Bool
is_le Ordering.gt = false
is_le other = true

abbrev is_lt : Ordering → Bool
is_lt Ordering.lt = true
is_lt other = false

abbrev is_eq : Ordering → Bool
is_eq Ordering.eq = true
is_eq other = false

-- Can a to b, b to c and a to c be compared like this by a preorder? What is left open where the
-- first two point in opposite directions.
abbrev pub composes : Ordering → Ordering → Ordering → Bool
composes Ordering.lt Ordering.gt o = true
composes Ordering.gt Ordering.lt o = true
composes Ordering.eq Ordering.eq o = is_eq o
composes Ordering.lt p o = is_lt o
composes Ordering.eq Ordering.lt o = is_lt o
composes Ordering.gt p o = is_gt o
composes Ordering.eq Ordering.gt o = is_gt o

below_composes : (o : Ordering) → composes Ordering.lt o Ordering.lt ≡ true
below_composes Ordering.lt = refl
below_composes Ordering.eq = refl
below_composes Ordering.gt = refl

above_composes : (o : Ordering) → composes Ordering.gt o Ordering.gt ≡ true
above_composes Ordering.lt = refl
above_composes Ordering.eq = refl
above_composes Ordering.gt = refl

composes_above : (o : Ordering) → composes o Ordering.gt Ordering.gt ≡ true
composes_above Ordering.lt = refl
composes_above Ordering.eq = refl
composes_above Ordering.gt = refl

composes_below : (o : Ordering) → composes o Ordering.lt Ordering.lt ≡ true
composes_below Ordering.lt = refl
composes_below Ordering.eq = refl
composes_below Ordering.gt = refl

pub and_then-swap : (o p : Ordering) → and_then (swap o) (swap p) ≡ swap (and_then o p)
and_then-swap Ordering.lt p = refl
and_then-swap Ordering.eq p = refl
and_then-swap Ordering.gt p = refl

pub and_then-composes :
    (a b c x y z : Ordering)
    → composes a b c ≡ true
    → composes x y z ≡ true
    → composes (and_then a x) (and_then b y) (and_then c z) ≡ true
and_then-composes Ordering.lt Ordering.lt Ordering.lt x y z h k = refl
and_then-composes Ordering.lt Ordering.eq Ordering.lt x Ordering.lt z h k = refl
and_then-composes Ordering.lt Ordering.eq Ordering.lt x Ordering.eq z h k = refl
and_then-composes Ordering.lt Ordering.eq Ordering.lt x Ordering.gt z h k = refl
and_then-composes Ordering.lt Ordering.gt c x y z h k = refl
and_then-composes Ordering.gt Ordering.lt c x y z h k = refl
and_then-composes Ordering.gt Ordering.gt Ordering.gt x y z h k = refl
and_then-composes Ordering.gt Ordering.eq Ordering.gt x Ordering.lt z h k = refl
and_then-composes Ordering.gt Ordering.eq Ordering.gt x Ordering.eq z h k = refl
and_then-composes Ordering.gt Ordering.eq Ordering.gt x Ordering.gt z h k = refl
and_then-composes Ordering.eq Ordering.eq Ordering.eq x y z h k = k
and_then-composes Ordering.eq Ordering.lt Ordering.lt Ordering.lt y z h k = refl
and_then-composes Ordering.eq Ordering.lt Ordering.lt Ordering.eq y z h k = refl
and_then-composes Ordering.eq Ordering.lt Ordering.lt Ordering.gt y z h k = refl
and_then-composes Ordering.eq Ordering.gt Ordering.gt Ordering.lt y z h k = refl
and_then-composes Ordering.eq Ordering.gt Ordering.gt Ordering.eq y z h k = refl
and_then-composes Ordering.eq Ordering.gt Ordering.gt Ordering.gt y z h k = refl
and_then-composes a b c x y z h k = absurd (cc)

pub compare_ints-swap : (a b : ℤ) → compare_ints b a ≡ swap (compare_ints a b)
compare_ints-swap a b = ground arith

pub compare_ints-composes :
    (a b c : ℤ) → composes (compare_ints a b) (compare_ints b c) (compare_ints a c) ≡ true
compare_ints-composes a b c = ground arith

compare_numbers-swap : (a b : Number) → compare_numbers b a ≡ swap (compare_numbers a b)
unfolding compare_numbers
compare_numbers-swap a b = ground arith

compare_numbers-composes :
    (a b c : Number)
    → composes (compare_numbers a b) (compare_numbers b c) (compare_numbers a c) ≡ true
unfolding compare_numbers
compare_numbers-composes a b c = ground arith

compare_parts-swap : (a b : List Text) → compare_parts b a ≡ swap (compare_parts a b)
unfolding compare_parts
compare_parts-swap [] [] = refl
compare_parts-swap [] (y ∷ b) = refl
compare_parts-swap (x ∷ a) [] = refl
compare_parts-swap (x ∷ a) (y ∷ b) =
    rw (compare_numbers-swap (atoi x) (atoi y), compare_parts-swap a b)
      (and_then-swap (compare_numbers (atoi x) (atoi y)) (compare_parts a b))

compare_parts-composes :
    (a b c : List Text)
    → composes (compare_parts a b) (compare_parts b c) (compare_parts a c) ≡ true
unfolding compare_parts
compare_parts-composes [] [] [] = refl
compare_parts-composes [] [] (z ∷ c) = refl
compare_parts-composes [] (y ∷ b) [] = refl
compare_parts-composes [] (y ∷ b) (z ∷ c) = below_composes (compare_parts (y ∷ b) (z ∷ c))
compare_parts-composes (x ∷ a) [] [] = refl
compare_parts-composes (x ∷ a) [] (z ∷ c) = refl
compare_parts-composes (x ∷ a) (y ∷ b) [] = composes_above (compare_parts (x ∷ a) (y ∷ b))
compare_parts-composes (x ∷ a) (y ∷ b) (z ∷ c) =
    and_then-composes _ _ _ _ _ _ (compare_numbers-composes (atoi x) (atoi y) (atoi z))
      (compare_parts-composes a b c)

pub compare_prerelease-swap : (a b : Text) → compare_prerelease b a ≡ swap (compare_prerelease a b)
unfolding compare_prerelease
compare_prerelease-swap [] [] = compare_parts-swap _ _
compare_prerelease-swap [] (y ∷ b) = refl
compare_prerelease-swap (x ∷ a) [] = refl
compare_prerelease-swap (x ∷ a) (y ∷ b) = compare_parts-swap _ _

pub compare_prerelease-composes :
    (a b c : Text)
    → composes (compare_prerelease a b) (compare_prerelease b c) (compare_prerelease a c) ≡ true
unfolding compare_prerelease
compare_prerelease-composes [] [] [] = compare_parts-composes _ _ _
compare_prerelease-composes [] [] (z ∷ c) = composes_above _
compare_prerelease-composes [] (y ∷ b) [] = refl
compare_prerelease-composes [] (y ∷ b) (z ∷ c) = above_composes _
compare_prerelease-composes (x ∷ a) [] [] = below_composes _
compare_prerelease-composes (x ∷ a) [] (z ∷ c) = refl
compare_prerelease-composes (x ∷ a) (y ∷ b) [] = composes_below _
compare_prerelease-composes (x ∷ a) (y ∷ b) (z ∷ c) = compare_parts-composes _ _ _
