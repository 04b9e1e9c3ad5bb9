-- ===== src/Prelude/Order.antt =====
-- The order of texts is a strict total order.
use mathlib.Core.Path.{◌≡◌, refl}
use mathlib.Core.Bool.{true, false}
use mathlib.Core.Logic.{inl, inr}
use mathlib.Core.List.{[], ◌∷◌}
use native.Mathlib.Omega.{arith}
use solomon.Prelude.Tests.{ltb, ◌==◌, Bool-cases}
use solomon.Prelude.Strings.{Text, equal, text_lt}

pub text_lt_irrefl : (a : Text) → text_lt a a ≡ false
unfolding text_lt
text_lt_irrefl [] = refl
text_lt_irrefl (x ∷ a) = ground (arith, text_lt_irrefl a)

pub text_lt_trans : (a b c : Text) → text_lt a b ≡ true → text_lt b c ≡ true → text_lt a c ≡ true
unfolding text_lt
text_lt_trans [] [] c h g = g
text_lt_trans [] (y ∷ b) [] h g = g
text_lt_trans [] (y ∷ b) (z ∷ c) h g = refl
text_lt_trans (x ∷ a) [] c h g = absurd (ground arith)
text_lt_trans (x ∷ a) (y ∷ b) [] h g = g
text_lt_trans (x ∷ a) (y ∷ b) (z ∷ c) h g = elim (Bool-cases (ltb x z)) [
  | inl less ↦ ground arith
  | inr equal_heads ↦ let rest = text_lt_trans a b c (ground arith) (ground arith) in ground arith
]

pub text_lt_total : (a b : Text) → text_lt a b ≡ false → text_lt b a ≡ false → equal a b ≡ true
unfolding text_lt equal
text_lt_total [] [] h g = refl
text_lt_total [] (y ∷ b) h g = absurd (cc)
text_lt_total (x ∷ a) [] h g = absurd (cc)
text_lt_total (x ∷ a) (y ∷ b) h g =
    let rest = text_lt_total a b (ground arith) (ground arith) in ground arith

pub text_lt_asym : (a b : Text) → text_lt a b ≡ true → text_lt b a ≡ false
unfolding text_lt
text_lt_asym [] [] h = refl
text_lt_asym [] (y ∷ b) h = refl
text_lt_asym (x ∷ a) [] h = absurd (cc)
text_lt_asym (x ∷ a) (y ∷ b) h = elim (Bool-cases (ltb x y)) [
  | inl less ↦ ground arith
  | inr same ↦ let rest = text_lt_asym a b (ground arith) in ground arith
]

-- What is not before a text that is not before a third one is not before the third one.
pub text_lt_negtrans :
    (a b c : Text) → text_lt a b ≡ false → text_lt b c ≡ false → text_lt a c ≡ false
unfolding text_lt
text_lt_negtrans [] [] c h g = g
text_lt_negtrans [] (y ∷ b) c h g = absurd (cc)
text_lt_negtrans (x ∷ a) b [] h g = refl
text_lt_negtrans (x ∷ a) [] (z ∷ c) h g = absurd (cc)
text_lt_negtrans (x ∷ a) (y ∷ b) (z ∷ c) h g = elim (Bool-cases (x == z)) [
  | inl same ↦ elim (Bool-cases (x == y)) [
    | inl all_same ↦ let rest = text_lt_negtrans a b c (ground arith) (ground arith) in ground arith
    | inr differ ↦ ground arith
  ]
  | inr differ ↦ ground arith
]
