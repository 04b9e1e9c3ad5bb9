-- ===== src/Packs/Versions/Sound.antt =====
-- Versions are compared by a total preorder.
use Prim.Native.Nat.{Ordering}
use solomon.Prelude.{
  ◌≡◌, refl, sym, ap, ◌∙◌, Bool, true, false, Option, none, some, List, [], ◌∷◌, arith, length,
  Text, split_at, and_true,
}
use solomon.Packs.Versions.{
  compare_ints, and_then, and_then_option, atoi, compare_core, compare_version, split_version,
  semantic_version, is_core,
}
use solomon.Packs.Versions.Preorder.{
  swap, composes, compare_ints-swap, compare_ints-composes, compare_prerelease-swap,
  compare_prerelease-composes, and_then-swap, and_then-composes,
}

abbrev swap_option : Option Ordering → Option Ordering
swap_option none = none
swap_option (some o) = some (swap o)

-- Is an optional comparison there, and does it compose?
abbrev pub composes_option : Option Ordering → Option Ordering → Option Ordering → Bool
composes_option (some a) (some b) (some c) = composes a b c
composes_option a b c = false

and_then_option-some : (a x : Ordering) → and_then_option a (some x) ≡ some (and_then a x)
and_then_option-some Ordering.lt x = refl
and_then_option-some Ordering.eq x = refl
and_then_option-some Ordering.gt x = refl

and_then_option-composes :
    (a b c : Ordering) (x y z : Option Ordering)
    → composes a b c ≡ true
    → composes_option x y z ≡ true
    → composes_option (and_then_option a x) (and_then_option b y) (and_then_option c z) ≡ true
and_then_option-composes a b c (some x) (some y) (some z) h k =
    rw (and_then_option-some a x, and_then_option-some b y, and_then_option-some c z)
      (and_then-composes a b c x y z h k)
and_then_option-composes a b c x y z h k = absurd (cc)

-- The cores of the same number of parts.
compare_core-composes :
    (a b c : List Text) (x y z : Ordering)
    → length a ≡ length b
    → length b ≡ length c
    → composes x y z ≡ true
    → composes_option (compare_core a b x) (compare_core b c y) (compare_core a c z) ≡ true
unfolding compare_core
compare_core-composes [] [] [] x y z h k e = e
compare_core-composes (p ∷ a) (q ∷ b) (r ∷ c) x y z h k e =
    and_then_option-composes _ _ _ _ _ _
      (compare_ints-composes (atoi p).value (atoi q).value (atoi r).value)
      (compare_core-composes a b c x y z (omega (arith, h)) (omega (arith, k)) e)
compare_core-composes a b c x y z h k e = absurd (omega arith)

compare_core-swap :
    (a b : List Text) (x y : Ordering)
    → length a ≡ length b
    → y ≡ swap x
    → (o : Ordering) × (compare_core a b x ≡ some o) × (compare_core b a y ≡ some (swap o))
unfolding compare_core
compare_core-swap [] [] x y h e = (x, refl, ap some e)
compare_core-swap [] (q ∷ b) x y h e = absurd (omega arith)
compare_core-swap (p ∷ a) [] x y h e = absurd (omega arith)
compare_core-swap (p ∷ a) (q ∷ b) x y h e =
    let (o, left, right) = compare_core-swap a b x y (omega arith) e in
    let first = compare_ints (atoi p).value (atoi q).value in
    (
      and_then first o,
      rw left (and_then_option-some first o),
      rw (compare_ints-swap (atoi p).value (atoi q).value, right)
          (and_then_option-some (swap first) (swap o) ∙ ap some (and_then-swap first o)),
    )

length-is_core : (parts : List Text) → is_core parts ≡ true → length parts ≡ 3
length-is_core (a ∷ b ∷ c ∷ []) h = refl
length-is_core parts h = absurd (cc)

-- A semantic version has three parts in its core.
length_core :
    (v : Text) → semantic_version v ≡ true → length (split_at b'.' (split_version v).0) ≡ 3
unfolding semantic_version split_version
length_core v h = length-is_core _ (and_true _ _ (and_true _ _ h).0).0

-- Two semantic versions are compared without an index out of range, and the other way round with
-- the opposite result.
pub compare_version-swap :
    (a b : Text)
    → semantic_version a ≡ true
    → semantic_version b ≡ true
    → (o : Ordering) × (compare_version a b ≡ some o) × (compare_version b a ≡ some (swap o))
unfolding compare_version
compare_version-swap a b ha hb =
    compare_core-swap _ _ _ _ (length_core a ha ∙ sym (length_core b hb))
      (compare_prerelease-swap (split_version a).1 (split_version b).1)

-- The comparisons of three semantic versions fit together as those of a preorder: what is below or
-- equal to a version that is below a third one is below that, and likewise above.
pub compare_version-composes :
    (a b c : Text)
    → semantic_version a ≡ true
    → semantic_version b ≡ true
    → semantic_version c ≡ true
    → composes_option (compare_version a b) (compare_version b c) (compare_version a c) ≡ true
unfolding compare_version
compare_version-composes a b c ha hb hc =
    compare_core-composes _ _ _ _ _ _ (length_core a ha ∙ sym (length_core b hb))
      (length_core b hb ∙ sym (length_core c hc))
      (compare_prerelease-composes (split_version a).1 (split_version b).1 (split_version c).1)
