-- ===== src/Packs/Templates/Captures.antt =====
-- The references of a template against the captures that there are.
use solomon.Prelude.{
  ℕ, ◌+◌, ◌-◌, ◌*◌, ◌≤◌, ◌<◌, ◌≡◌, refl, inl, inr, Bool, true, false, ◌&&◌, Option, none, some,
  List, [], ◌∷◌, arith, ltb, leb, ◌==◌, if◌then◌else◌, Bool-cases, Result, ok, err, all, Text,
  ltb→lt,
}
use solomon.Packs.Templates.{
  TemplateError, unavailable_capture, Reading, outside, dollar, reference, is_digit, exceeds, scan,
  validate_transformation_template,
}

abbrev with_number : ℕ → Option (List ℕ) → Option (List ℕ)
with_number n none = none
with_number n (some ns) = some (n ∷ ns)

-- The references of a template as the numbers they spell, of any length; none where a `$` is
-- followed by neither `$` nor a digit from 1 to 9.
references_from : Reading → Text → Option (List ℕ)
references_from outside [] = some []
references_from outside (c ∷ cs) = references_from (if c == b'$' then dollar else outside) cs
references_from dollar [] = none
references_from dollar (c ∷ cs) =
    let escaped = references_from outside cs in
    let started = references_from (reference (c - b'0')) cs in
    if c == b'$' then escaped else if leb b'1' c && leb c b'9' then started else none
references_from (reference n) [] = some (n ∷ [])
references_from (reference n) (c ∷ cs) =
    let more = references_from (reference (n * 10 + (c - b'0'))) cs in
    let ended = with_number n (references_from (if c == b'$' then dollar else outside) cs) in
    if is_digit c then more else ended

pub references : Text → Option (List ℕ)
unfolding references_from
references = references_from outside

-- Is each reference that of a capture?
abbrev pub within : ℕ → Option (List ℕ) → Bool
within captures none = false
within captures (some ns) = all (λ n. leb n captures) ns

abbrev pub is_ok : Result TemplateError (Unit {0}) → Bool
is_ok (ok u) = true
is_ok (err e) = false

-- The test of the next digit finds out whether the longer number is too large, without computing it.
exceeds_lem :
    (captures capture digit : ℕ)
    → digit ≤ 9
    → exceeds captures capture digit ≡ ltb captures (capture * 10 + digit)
exceeds_lem captures capture digit h = ground arith

within-with_number :
    (captures n : ℕ) (o : Option (List ℕ))
    → within captures (with_number n o) ≡ (leb n captures && within captures o)
within-with_number captures n none = ground arith
within-with_number captures n (some ns) = refl

-- A number that is too large stays so, whatever digits follow.
references_from-exceeds :
    (captures n : ℕ) (t : Text)
    → captures < n
    → within captures (references_from (reference n) t) ≡ false
unfolding references_from
references_from-exceeds captures n [] h = ground arith
references_from-exceeds captures n (c ∷ cs) h =
    let more = references_from-exceeds captures (n * 10 + (c - b'0')) cs (omega arith) in
    let ended =
      within-with_number captures n (references_from (if c == b'$' then dollar else outside) cs) in
    ground arith

-- The number that a reference has so far is that of a capture.
abbrev fits : ℕ → Reading → Bool
fits captures (reference n) = leb n captures
fits captures m = true

-- One more digit: the loop goes on with it exactly when the longer number is that of a capture.
digit-within :
    (captures n digit total : ℕ) (cs : Text)
    → digit ≤ 9
    → n * 10 + digit ≡ total
    → (fits captures (reference total) ≡ true
        → is_ok (scan captures (reference total) cs)
          ≡ within captures (references_from (reference total) cs))
    → is_ok (
        if exceeds captures n digit
        then err unavailable_capture
        else scan captures (reference total) cs)
      ≡ within captures (references_from (reference total) cs)
digit-within captures n digit total cs small same further =
    rw (exceeds_lem captures n digit small, same)
      (elim (Bool-cases (ltb captures total)) [
        | inl large ↦ rw (large, references_from-exceeds captures total cs (ltb→lt _ _ large)) refl
        | inr fine ↦ rw fine (further (ground arith))
      ])

-- The loop accepts what is left exactly when each reference in it is that of a capture.
scan-within :
    (captures : ℕ) (m : Reading) (t : Text)
    → fits captures m ≡ true
    → is_ok (scan captures m t) ≡ within captures (references_from m t)
unfolding scan references_from
scan-within captures outside [] f = refl
scan-within captures outside (c ∷ cs) f =
    scan-within captures (if c == b'$' then dollar else outside) cs (ground arith)
scan-within captures dollar [] f = refl
scan-within captures dollar (c ∷ cs) f = elim (Bool-cases (c == b'$')) [
  | inl escaped ↦ rw escaped (scan-within captures outside cs refl)
  | inr other ↦ elim (Bool-cases (leb b'1' c && leb c b'9')) [
    | inl digit ↦
        let started =
          digit-within captures 0 (c - b'0') (c - b'0') cs (ground arith) (omega arith)
            (scan-within captures (reference (c - b'0')) cs) in
        ground (arith, started)
    | inr neither ↦ ground arith
  ]
]
scan-within captures (reference n) [] f = ground arith
scan-within captures (reference n) (c ∷ cs) f = elim (Bool-cases (is_digit c)) [
  | inl digit ↦ rw digit (
      digit-within captures n (c - b'0') (n * 10 + (c - b'0')) cs (ground arith) refl
        (scan-within captures (reference (n * 10 + (c - b'0'))) cs))
  | inr ended ↦
      let next : Reading = if c == b'$' then dollar else outside in
      rw (ended, within-with_number captures n (references_from next cs))
        (let rest = scan-within captures next cs (ground arith) in ground arith)
]

-- A template is accepted exactly when every `$` in it is doubled or begins a reference, and each
-- reference, as the number that all of its digits spell, is at most the number of captures; the
-- loop finds this out without computing a number above that.
pub validate_transformation_template-references :
    (template : Text) (captures : ℕ)
    → is_ok (validate_transformation_template template captures)
      ≡ within captures (references template)
unfolding validate_transformation_template references
validate_transformation_template-references template captures =
    scan-within captures outside template refl
