-- ===== src/Packs/Versions.antt =====
-- The order of versions in internal/packs/compatibility.go, and semanticVersion of packs.go.
pub mod Preorder
pub mod Sound
pub mod Letters
use Prim.Native.Nat.{Ordering}
use solomon.Prelude.{
  ℕ, zero, suc, ◌+◌, ◌-◌, ◌*◌, ◌<◌, Bool, true, false, not, ◌&&◌, ◌||◌, Option, none, some, List,
  [], ◌∷◌, ltb, leb, ◌==◌, if◌then◌else◌, ◌>>◌, any, all, Text, equal, cut_at, split_at,
}

-- `negsuc n` is -(n + 1).
pub data ℤ : Type 0 where
  pos : ℕ → ℤ
  negsuc : ℕ → ℤ

abbrev pub pos_part : ℤ → ℕ
pos_part (pos n) = n
pos_part (negsuc n) = 0

abbrev pub neg_part : ℤ → ℕ
neg_part (pos n) = 0
neg_part (negsuc n) = suc n

abbrev pub less : ℤ → ℤ → Bool
less a b = ltb (pos_part a + neg_part b) (pos_part b + neg_part a)

-- The two results of strconv.Atoi: the number, and whether there was no error.
pub record Number : Type 0 where
  pub value : ℤ
  pub valid : Bool

abbrev is_digit : ℕ → Bool
is_digit c = leb b'0' c && leb c b'9'

digits_value : ℕ → Text → ℕ
digits_value n [] = n
digits_value n (c ∷ cs) = digits_value (n * 10 + (c - b'0')) cs

all_digits : Text → Bool
all_digits cs = not (equal cs []) && all is_digit cs

abbrev number : ℤ → Bool → Number
number n b = record { value = n; valid = b }

-- A number outside of the 64 bits of an int becomes the bound that it passes, with an error.
positive : Text → Number
unfolding all_digits digits_value
positive cs =
    let n = digits_value 0 cs in
    if not (all_digits cs)
    then number (pos 0) false
    else if leb 0x8000_0000_0000_0000 n
    then number (pos 0x7fff_ffff_ffff_ffff) false
    else number (pos n) true

abbrev negated : ℕ → ℤ
negated zero = pos 0
negated (suc n) = negsuc n

negative : Text → Number
unfolding all_digits digits_value
negative cs =
    let n = digits_value 0 cs in
    if not (all_digits cs)
    then number (pos 0) false
    else if ltb 0x8000_0000_0000_0000 n
    then number (negsuc 0x7fff_ffff_ffff_ffff) false
    else number (negated n) true

-- strconv.Atoi
unfoldable pub atoi : Text → Number
unfolding positive negative
atoi [] = number (pos 0) false
atoi (c ∷ cs) =
    if c == b'-' then negative cs else if c == b'+' then positive cs else positive (c ∷ cs)

-- The core of a version and its prerelease, which is empty if there is none.
unfoldable pub split_version : Text → Text × Text
split_version value =
    let (core, prerelease) = cut_at b'-' (cut_at b'+' value).0 in (core, text_or_empty prerelease)
  where
    text_or_empty : Option Text → Text
    text_or_empty none = []
    text_or_empty (some t) = t

abbrev is_identifier_character : ℕ → Bool
is_identifier_character c =
    is_digit c || leb b'a' c && leb c b'z' || leb b'A' c && leb c b'Z' || c == b'-'

-- 0|[1-9][0-9]*
abbrev numeric_part : Text → Bool
numeric_part [] = false
numeric_part (c ∷ []) = is_digit c
numeric_part (c ∷ d ∷ cs) = leb b'1' c && leb c b'9' && all is_digit (d ∷ cs)

-- A part that is a number, or one of [0-9A-Za-z-] that holds a character that is no digit.
prerelease_part : Text → Bool
prerelease_part s = numeric_part s || all is_identifier_character s && any (λ c. not (is_digit c)) s

build_part : Text → Bool
build_part s = not (equal s []) && all is_identifier_character s

abbrev pub is_core : List Text → Bool
is_core (a ∷ b ∷ c ∷ []) = numeric_part a && numeric_part b && numeric_part c
is_core parts = false

-- If the part is there, do all its pieces between dots pass the test?
abbrev optional_parts : (Text → Bool) → Option Text → Bool
optional_parts test none = true
optional_parts test (some s) = all test (split_at b'.' s)

-- semanticVersionPattern: the core has neither a plus nor a hyphen, and a prerelease has no plus,
-- so that the first plus starts the build, and the first hyphen before it the prerelease.
unfoldable pub semantic_version : Text → Bool
unfolding prerelease_part build_part
semantic_version value =
    let (versioned, build) = cut_at b'+' value in
    let (core, prerelease) = cut_at b'-' versioned in
    is_core (split_at b'.' core)
    && optional_parts prerelease_part prerelease
    && optional_parts build_part build

-- `if l < r { return -1 }; if l > r { return 1 }`
abbrev pub compare_ints : ℤ → ℤ → Ordering
compare_ints l r = if less l r then Ordering.lt else if less r l then Ordering.gt else Ordering.eq

-- What is returned if the comparison before it returned nothing.
abbrev pub and_then : Ordering → Ordering → Ordering
and_then Ordering.eq rest = rest
and_then decided rest = decided

-- One round of the loop of comparePrerelease. The parts that are no numbers are compared by what
-- Atoi returns beside its error.
unfoldable pub compare_numbers : Number → Number → Ordering
compare_numbers l r =
    if l.valid && r.valid
    then compare_ints l.value r.value
    else if l.valid
    then Ordering.lt
    else if r.valid
    then Ordering.gt
    else compare_ints l.value r.value

unfoldable pub compare_parts : List Text → List Text → Ordering
unfolding compare_numbers
compare_parts [] [] = Ordering.eq
compare_parts [] (r ∷ rs) = Ordering.lt
compare_parts (l ∷ ls) [] = Ordering.gt
compare_parts (l ∷ ls) (r ∷ rs) = and_then (compare_numbers (atoi l) (atoi r)) (compare_parts ls rs)

unfoldable pub compare_prerelease : Text → Text → Ordering
unfolding compare_parts
compare_prerelease [] (c ∷ right) = Ordering.gt
compare_prerelease (c ∷ left) [] = Ordering.lt
compare_prerelease left right = compare_parts (split_at b'.' left) (split_at b'.' right)

-- What follows a comparison of two numbers of the core, or `none` where an index is out of range.
abbrev pub and_then_option : Ordering → Option Ordering → Option Ordering
and_then_option Ordering.eq rest = rest
and_then_option decided rest = some decided

-- The loop of compareVersion over the parts of the left core, and what is compared behind it.
unfoldable pub compare_core : List Text → List Text → Ordering → Option Ordering
compare_core [] rs rest = some rest
compare_core (l ∷ ls) [] rest = none
compare_core (l ∷ ls) (r ∷ rs) rest =
    and_then_option (compare_ints (atoi l).value (atoi r).value) (compare_core ls rs rest)

unfoldable pub compare_version : Text → Text → Option Ordering
unfolding compare_core
compare_version left right =
    let (left_core, left_pre) = split_version left in
    let (right_core, right_pre) = split_version right in
    compare_core (split_at b'.' left_core) (split_at b'.' right_core)
      (compare_prerelease left_pre right_pre)
