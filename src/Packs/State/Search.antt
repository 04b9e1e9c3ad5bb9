-- ===== src/Packs/State/Search.antt =====
-- Binary search in the enabled packs.
use solomon.Prelude.{
  ℕ, zero, suc, ◌+◌, ◌≤◌, ◌<◌, ◌≡◌, refl, sym, ap, ◌∙◌, inl, inr, true, false, Option, none, some,
  List, [], ◌∷◌, arith, ltb, Bool-cases, length, get_elem?, Text, equal, equal_iff, equal_refl,
  elem, text_lt, ltb→lt, ◌/◌, text_lt_irrefl, text_lt_trans,
}
use solomon.Packs.State.{
  is_before, search_between, search_strings, is_at, enabled_for, validate_from,
}
use solomon.Packs.State.Order.{validate_from-elem}

elem-get_elem? :
    (id : Text) (ids : List Text) → elem id ids ≡ true → (k : ℕ) × (get_elem? ids k ≡ some id)
unfolding elem
elem-get_elem? id [] e = absurd (cc)
elem-get_elem? id (x ∷ ids) e = elim (Bool-cases (equal id x)) [
  | inl same ↦ (0, ap some (sym ((equal_iff id x).0 same)))
  | inr other ↦ let (k, found) = elem-get_elem? id ids (ground arith) in (suc k, found)
]

get_elem?-elem :
    (id : Text) (ids : List Text) (k : ℕ) → get_elem? ids k ≡ some id → elem id ids ≡ true
unfolding elem
get_elem?-elem id [] k h = absurd (cc)
get_elem?-elem id (x ∷ ids) zero h = let same : x ≡ id = cc in rw (same, equal_refl id) refl
get_elem?-elem id (x ∷ ids) (suc k) h = let rest = get_elem?-elem id ids k h in ground arith

pub is_at-elem :
    (id : Text) (ids : List Text) (k : ℕ) (o : Option Text)
    → get_elem? ids k ≡ o
    → is_at id o ≡ true
    → elem id ids ≡ true
is_at-elem id ids k none e h = absurd (cc)
is_at-elem id ids k (some x) e h = get_elem?-elem id ids k (e ∙ ap some ((equal_iff x id).0 h))

get_elem?-before :
    (ids : List Text) (i j : ℕ) {b : Text}
    → i < j
    → get_elem? ids j ≡ some b
    → (a : Text) × (get_elem? ids i ≡ some a)
get_elem?-before [] i j less h = absurd (cc)
get_elem?-before (x ∷ ids) zero j less h = (x, refl)
get_elem?-before (x ∷ ids) (suc i) zero less h = absurd (omega arith)
get_elem?-before (x ∷ ids) (suc i) (suc j) less h = get_elem?-before ids i j (omega arith) h

get_elem?-behind : (ids : List Text) (i : ℕ) → length ids ≤ i → get_elem? ids i ≡ none
get_elem?-behind [] i h = refl
get_elem?-behind (x ∷ ids) zero h = absurd (omega arith)
get_elem?-behind (x ∷ ids) (suc i) h = get_elem?-behind ids i (omega arith)

-- In an ascending list a text at a greater index is greater.
ascending :
    (p : Text) (ids : List Text) (i j : ℕ) (a b : Text)
    → validate_from p ids ≡ true
    → i < j
    → get_elem? ids i ≡ some a
    → get_elem? ids j ≡ some b
    → text_lt a b ≡ true
unfolding validate_from
ascending p [] i j a b v less e f = absurd (cc)
ascending p (x ∷ ids) zero zero a b v less e f = absurd (omega arith)
ascending p (x ∷ ids) zero (suc j) a b v less e f =
    let same : x ≡ a = cc in
    rw (sym same) (validate_from-elem x b ids (ground arith) (get_elem?-elem b ids j f))
ascending p (x ∷ ids) (suc i) zero a b v less e f = absurd (omega arith)
ascending p (x ∷ ids) (suc i) (suc j) a b v less e f =
    ascending x ids i j a b (ground arith) (omega arith) e f

-- The texts in front of the index are before the one that is looked for, the others are not.
abbrev pub Boundary : List Text → Text → ℕ → Type 0
Boundary ids id r =
    ((i : ℕ) → i < r → is_before id (get_elem? ids i) ≡ true)
    × ((i : ℕ) → r ≤ i → is_before id (get_elem? ids i) ≡ false)

module _ (ids : List Text) (id : Text) (v : validate_from [] ids ≡ true) where
  -- What is in front of a text before the one that is looked for is before it as well.
  before_in_front :
      (i j : ℕ)
      → i < j
      → is_before id (get_elem? ids j) ≡ true
      → is_before id (get_elem? ids i) ≡ true
  before_in_front i j less h = go (get_elem? ids i) (get_elem? ids j) refl refl h
    where
      go :
          (x y : Option Text)
          → get_elem? ids i ≡ x
          → get_elem? ids j ≡ y
          → is_before id y ≡ true
          → is_before id x ≡ true
      go x none e f h = absurd (cc)
      go none (some b) e f h = let (a, found) = get_elem?-before ids i j less f in absurd (cc)
      go (some a) (some b) e f h = text_lt_trans a b id (ascending [] ids i j a b v less e f) h

  in_front :
      (middle : ℕ)
      → is_before id (get_elem? ids middle) ≡ true
      → (i : ℕ) → i ≤ middle
      → is_before id (get_elem? ids i) ≡ true
  in_front middle h i le = elim (Bool-cases (ltb i middle)) [
    | inl less ↦ before_in_front i middle (ltb→lt i middle less) h
    | inr same ↦ let e : i ≡ middle = ground arith in rw e h
  ]

  behind :
      (middle : ℕ)
      → is_before id (get_elem? ids middle) ≡ false
      → (i : ℕ) → middle ≤ i
      → is_before id (get_elem? ids i) ≡ false
  behind middle h i le = elim (Bool-cases (is_before id (get_elem? ids i))) [
    | inr not_before ↦ not_before
    | inl before ↦ let b = in_front i before middle le in absurd (cc)
  ]

  search_between-Boundary :
      (rounds low high : ℕ)
      → high ≤ rounds + low
      → low ≤ high
      → ((i : ℕ) → i < low → is_before id (get_elem? ids i) ≡ true)
      → ((i : ℕ) → high ≤ i → is_before id (get_elem? ids i) ≡ false)
      → Boundary ids id (search_between rounds ids id low high)
  unfolding search_between
  search_between-Boundary zero low high enough ordered front back =
      (front, λ i h. back i (omega arith))
  search_between-Boundary (suc rounds) low high enough ordered front back =
      elim (Bool-cases (ltb low high)) [
        | inr met ↦ rw met (front, λ i h. back i (ground arith))
        | inl apart ↦
            let less : low < high = ltb→lt low high apart in
            elim (Bool-cases (is_before id (get_elem? ids ((low + high) / 2)))) [
              | inl before ↦
                  rw (apart, before)
                    (search_between-Boundary rounds ((low + high) / 2 + 1) high (omega arith)
                      (omega arith) (λ i h. in_front ((low + high) / 2) before i (omega arith))
                      back)
              | inr not_before ↦
                  rw (apart, not_before)
                    (search_between-Boundary rounds low ((low + high) / 2) (omega arith)
                      (omega arith) front (λ i h. behind ((low + high) / 2) not_before i h))
            ]
      ]

  pub search_strings-Boundary : Boundary ids id (search_strings ids id)
  unfolding search_strings
  search_strings-Boundary =
      search_between-Boundary (length ids) 0 (length ids) (omega arith) (omega arith)
        (λ i h. absurd (omega arith)) (λ i h. rw (get_elem?-behind ids i h) refl)

  -- Where the text that is looked for stands, the boundary is.
  Boundary-found : (r k : ℕ) → Boundary ids id r → get_elem? ids k ≡ some id → r ≡ k
  Boundary-found r k (front, back) found = elim (Bool-cases (ltb k r)) [
    | inl early ↦
        let before : is_before id (get_elem? ids k) ≡ true = front k (ltb→lt k r early) in
        let not_before : is_before id (get_elem? ids k) ≡ false = rw found (text_lt_irrefl id) in
        absurd (cc)
    | inr late ↦ elim (Bool-cases (ltb r k)) [
      | inl behind_it ↦
          let less : r < k = ltb→lt r k behind_it in
          let (a, here) = get_elem?-before ids r k less found in
          let before : is_before id (get_elem? ids r) ≡ true =
            rw here (ascending [] ids r k a id v less here found) in
          let not_before = back r (omega arith) in absurd (cc)
      | inr met ↦ ground arith
    ]
  ]

  -- In a valid state the binary search finds a pack exactly when it is in the list.
  pub enabled_for-elem : enabled_for ids id ≡ elem id ids
  unfolding enabled_for
  enabled_for-elem = elim (Bool-cases (elem id ids)) [
    | inl listed ↦
        let (k, found) = elem-get_elem? id ids listed in
        let r = Boundary-found (search_strings ids id) k search_strings-Boundary found in
        rw (listed, r, found, equal_refl id) refl
    | inr missing ↦ elim (Bool-cases (is_at id (get_elem? ids (search_strings ids id)))) [
      | inl at ↦ let e = is_at-elem id ids (search_strings ids id) _ refl at in absurd (cc)
      | inr not_at ↦ rw (missing, not_at) refl
    ]
  ]
