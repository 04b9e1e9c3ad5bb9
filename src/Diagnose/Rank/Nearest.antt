-- ===== src/Diagnose/Rank/Nearest.antt =====
-- The candidate that nearest picks.
use solomon.Prelude.{
  ℕ, ◌≤◌, ◌≡◌, refl, sym, ap, inl, inr, Bool, true, false, List, [], ◌∷◌, arith, if◌then◌else◌,
  Bool-cases, all, All, Text, equal, equal_iff, equal_refl, elem, text_lt, insert, sort,
  text_lt_irrefl, text_lt_asym, text_lt_negtrans,
}
use mathlib.Core.Path.{subst}
use solomon.Diagnose.Distance.{damerau_levenshtein}
use solomon.Diagnose.Rank.{
  RankedCandidate, ranks_before, ranked, measure, rank_candidates, best_of, nearest,
}

module _ (a b c : RankedCandidate) where
  ranks_before_irrefl : ranks_before a a ≡ false
  unfolding ranks_before
  ranks_before_irrefl = let texts = text_lt_irrefl a.value in ground arith

  ranks_before_asym : ranks_before a b ≡ true → ranks_before b a ≡ false
  unfolding ranks_before
  ranks_before_asym h = elim (Bool-cases (text_lt a.value b.value)) [
    | inl less ↦ let greater = text_lt_asym a.value b.value less in ground arith
    | inr not_less ↦ ground arith
  ]

  ranks_before_negtrans :
      ranks_before a b ≡ false → ranks_before b c ≡ false → ranks_before a c ≡ false
  unfolding ranks_before
  ranks_before_negtrans h g = elim (Bool-cases (text_lt a.value b.value)) [
    | inl less ↦ ground arith
    | inr not_less ↦ elim (Bool-cases (text_lt b.value c.value)) [
      | inl less ↦ ground arith
      | inr neither ↦
          let texts = text_lt_negtrans a.value b.value c.value not_less neither in ground arith
    ]
  ]

not_before-le :
    (a b : RankedCandidate) → ranks_before a b ≡ false → b.edit_distance ≤ a.edit_distance
unfolding ranks_before
not_before-le a b h = ground arith

-- No candidate of the list ranks before this one.
Least : RankedCandidate → RankedCandidate → Type 0
Least best r = ranks_before r best ≡ false

-- The first of a sorted list keeps what holds of all, and none ranks before it.
Heads : (RankedCandidate → Type 0) → List RankedCandidate → List RankedCandidate → Type 0
Heads P rs [] = rs ≡ []
Heads P rs (best ∷ sorted) = P best × All (Least best) rs

All-Least :
    (best next : RankedCandidate) (rs : List RankedCandidate)
    → ranks_before best next ≡ false
    → All (Least best) rs
    → All (Least next) rs
unfolding Least
All-Least best next [] h l = tt
All-Least best next (r ∷ rs) h (l, ls) =
    (ranks_before_negtrans r best next l h, All-Least best next rs h ls)

sort-Heads :
    (P : RankedCandidate → Type 0) (rs : List RankedCandidate)
    → All P rs
    → Heads P rs (sort ranks_before rs)
unfolding sort insert Heads Least
sort-Heads P [] h = refl
sort-Heads P (r ∷ rs) (p, ps) = go (sort ranks_before rs) (sort-Heads P rs ps)
  where
    go :
        (sorted : List RankedCandidate)
        → Heads P rs sorted
        → Heads P (r ∷ rs) (insert ranks_before r sorted)
    go [] empty = (p, (ranks_before_irrefl r r r, rw empty tt))
    go (best ∷ sorted) (q, least) = elim (Bool-cases (ranks_before best r)) [
      | inl before ↦ rw before (q, (ranks_before_asym best r r before, least))
      | inr not_before ↦
          rw not_before (p, (ranks_before_irrefl r r r, All-Least best r rs not_before least))
    ]

-- What rankCandidates has measured of one of the candidates.
IsCandidate : Text → List Text → RankedCandidate → Type 0
IsCandidate value candidates r = (r ≡ ranked value r.value) × (elem r.value candidates ≡ true)

measure-IsCandidate :
    (value : Text) (candidates seen rest : List Text)
    → ((x : Text) → elem x rest ≡ true → elem x candidates ≡ true)
    → All (IsCandidate value candidates) (measure value seen rest)
unfolding measure IsCandidate elem
measure-IsCandidate value candidates seen [] within = tt
measure-IsCandidate value candidates seen (x ∷ rest) within =
    let behind : (y : Text) → elem y rest ≡ true → elem y candidates ≡ true =
      λ y e. within y (let h = e in ground arith) in
    elim (Bool-cases (elem x seen)) [
      | inl again ↦ rw again (measure-IsCandidate value candidates seen rest behind)
      | inr first ↦ rw first (
        (refl, within x (let h = equal_refl x in ground arith)),
        measure-IsCandidate value candidates (x ∷ seen) rest behind,
      )
    ]

-- Every candidate is measured.
measure-covers :
    (P : RankedCandidate → Type 0) (value c : Text) (seen rest : List Text)
    → All P (measure value seen rest)
    → elem c rest ≡ true
    → elem c seen ≡ false
    → P (ranked value c)
unfolding measure elem
measure-covers P value c seen [] all e new = absurd (cc)
measure-covers P value c seen (x ∷ rest) all e new =
    let next : Bool → Type 0 = λ again.
      All P (
        if again
        then measure value seen rest
        else ranked value x ∷ measure value (x ∷ seen) rest) in
    elim (Bool-cases (equal c x)) [
      | inl same ↦
          let it : c ≡ x = (equal_iff c x).0 same in
          let first : elem x seen ≡ false = rw (sym it) new in rw it (subst next first all).0
      | inr other ↦ elim (Bool-cases (elem x seen)) [
        | inl again ↦ measure-covers P value c seen rest (subst next again all) (ground arith) new
        | inr first ↦
            measure-covers P value c (x ∷ seen) rest (subst next first all).1 (ground arith)
              (ground arith)
      ]
    ]

-- What is known of the candidate that nearest picks, and of another one.
abbrev pub Picked : Text → List Text → Text → Text × ℕ → Type 0
Picked value candidates c (best, distance) =
    (elem best candidates ≡ true)
    × (distance ≡ damerau_levenshtein value best)
    × (distance ≤ damerau_levenshtein value c)
    × (ranks_before (ranked value c) (ranked value best) ≡ false)

-- Among candidates nearest picks one of them, with its distance to the value: no candidate is
-- closer, and none ranks before it by the distance on the keyboard and then by its text.
pub nearest-Picked :
    (value : Text) (candidates : List Text) (c : Text)
    → elem c candidates ≡ true
    → Picked value candidates c (nearest value candidates)
unfolding nearest rank_candidates Least elem Heads IsCandidate
nearest-Picked value candidates c e = go (sort ranks_before (measure value [] candidates)) (
    sort-Heads (IsCandidate value candidates) (measure value [] candidates)
      (measure-IsCandidate value candidates [] candidates (λ x h. h)))
  where
    go :
        (sorted : List RankedCandidate)
        → Heads (IsCandidate value candidates) (measure value [] candidates) sorted
        → Picked value candidates c (best_of sorted)
    go [] empty = absurd (
        measure-covers (λ r. ⊥) value c [] candidates
          (subst (All (λ (r : RankedCandidate). ⊥)) (sym empty) tt) e refl)
    go (best ∷ sorted) (is_candidate, least) =
        let (is, listed) = is_candidate in
        let first : ranks_before (ranked value c) best ≡ false =
          measure-covers (Least best) value c [] candidates least e refl in
        let first_ranked : ranks_before (ranked value c) (ranked value best.value) ≡ false =
          subst (λ (r : RankedCandidate). ranks_before (ranked value c) r ≡ false) is first in
        (
          listed,
          ap (λ (r : RankedCandidate). r.edit_distance) is,
          not_before-le (ranked value c) best first,
          first_ranked,
        )
