-- ===== src/Packs/State/Order.antt =====
-- The order of texts, and lists that ascend in it.
use solomon.Prelude.{
  ◌≡◌, refl, ap, ◌∙◌, inl, inr, Bool, true, false, ◌||◌, List, [], ◌∷◌, ◌++◌, arith, Bool-cases,
  Text, equal, equal_iff, elem, text_lt, insert, sort, text_lt_trans, text_lt_total,
}
use solomon.Packs.State.{identifier, validate_from}

pub validate_from-weaken :
    (p q : Text) (ids : List Text)
    → text_lt p q ≡ true
    → validate_from q ids ≡ true
    → validate_from p ids ≡ true
unfolding validate_from
validate_from-weaken p q [] h v = refl
validate_from-weaken p q (id ∷ ids) h v =
    let less = text_lt_trans p q id h (ground arith) in ground arith

-- Every text of an ascending list is behind the one before the list.
pub validate_from-elem :
    (p y : Text) (ids : List Text)
    → validate_from p ids ≡ true
    → elem y ids ≡ true
    → text_lt p y ≡ true
unfolding validate_from elem
validate_from-elem p y [] v e = absurd (cc)
validate_from-elem p y (id ∷ ids) v e = elim (Bool-cases (equal y id)) [
  | inl same ↦ let it : y ≡ id = (equal_iff y id).0 same in rw it (ground arith)
  | inr other ↦
      validate_from-elem p y ids (validate_from-weaken p id ids (ground arith) (ground arith))
        (ground arith)
]

pub elem-insert :
    (y x : Text) (ids : List Text) → elem y (insert text_lt x ids) ≡ (equal y x || elem y ids)
unfolding elem insert
elem-insert y x [] = refl
elem-insert y x (id ∷ ids) = let rest = elem-insert y x ids in ground arith

pub elem-sort : (y : Text) (ids : List Text) → elem y (sort text_lt ids) ≡ elem y ids
unfolding elem sort
elem-sort y [] = refl
elem-sort y (id ∷ ids) =
    elem-insert y id (sort text_lt ids) ∙ ap (λ (b : Bool). equal y id || b) (elem-sort y ids)

pub elem-append :
    (y : Text) (ids more : List Text) → elem y (ids ++ more) ≡ (elem y ids || elem y more)
unfolding elem
elem-append y [] more = refl
elem-append y (id ∷ ids) more = let rest = elem-append y ids more in ground arith

pub validate_from-insert :
    (p x : Text) (ids : List Text)
    → identifier x ≡ true
    → text_lt p x ≡ true
    → elem x ids ≡ false
    → validate_from p ids ≡ true
    → validate_from p (insert text_lt x ids) ≡ true
unfolding validate_from insert elem
validate_from-insert p x [] i h e v = ground arith
validate_from-insert p x (id ∷ ids) i h e v = elim (Bool-cases (text_lt id x)) [
  | inl behind ↦
      let rest = validate_from-insert id x ids i behind (ground arith) (ground arith) in
      ground arith
  | inr before ↦ elim (Bool-cases (text_lt x id)) [
    | inl less ↦ ground arith
    | inr neither ↦ let same = text_lt_total x id neither before in absurd (ground arith)
  ]
]
