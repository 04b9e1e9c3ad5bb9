-- ===== src/Packs/Versions/Letters.antt =====
-- Two alphanumeric prereleases are not told apart.
use Prim.Native.Nat.{Ordering}
use solomon.Prelude.{
  ℕ, ◌≡◌, refl, Bool, true, false, ◌&&◌, ◌||◌, List, [], ◌∷◌, arith, leb, length, all, Text,
  split_at, and_true,
}
use solomon.Packs.Versions.{ℤ, atoi, compare_numbers, compare_parts, compare_prerelease}

abbrev is_letter : ℕ → Bool
is_letter c = leb b'a' c && leb c b'z' || leb b'A' c && leb c b'Z'

abbrev pub starts_with_letter : Text → Bool
starts_with_letter [] = false
starts_with_letter (c ∷ cs) = is_letter c

atoi_letter :
    (s : Text) → starts_with_letter s ≡ true → atoi s ≡ record { value = ℤ.pos 0; valid = false }
unfolding atoi
atoi_letter [] h = absurd (cc)
atoi_letter (c ∷ cs) h = ground arith

compare_parts_letters :
    (a b : List Text)
    → length a ≡ length b
    → all starts_with_letter a ≡ true
    → all starts_with_letter b ≡ true
    → compare_parts a b ≡ Ordering.eq
unfolding compare_parts compare_numbers
compare_parts_letters [] [] h p q = refl
compare_parts_letters [] (y ∷ b) h p q = absurd (omega arith)
compare_parts_letters (x ∷ a) [] h p q = absurd (omega arith)
compare_parts_letters (x ∷ a) (y ∷ b) h p q =
    let (px, pa) = and_true _ _ p in
    let (qy, qb) = and_true _ _ q in
    rw (atoi_letter x px, atoi_letter y qy) (compare_parts_letters a b (omega arith) pa qb)

-- The prereleases whose parts all start with a letter are never told apart, if they have the same
-- number of parts: alpha and beta are of the same rank.
pub compare_prerelease_letters :
    (a b : Text)
    → length (split_at b'.' a) ≡ length (split_at b'.' b)
    → all starts_with_letter (split_at b'.' a) ≡ true
    → all starts_with_letter (split_at b'.' b) ≡ true
    → compare_prerelease a b ≡ Ordering.eq
unfolding compare_prerelease split_at
compare_prerelease_letters [] b h p q = absurd (cc)
compare_prerelease_letters (x ∷ a) [] h p q = absurd (cc)
compare_prerelease_letters (x ∷ a) (y ∷ b) h p q = compare_parts_letters _ _ h p q
