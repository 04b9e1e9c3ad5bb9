-- ===== src/Packs/State/Enabled.antt =====
-- What enabling and disabling a pack leave.
use solomon.Prelude.{
  ◌≡◌, refl, sym, ap, ◌∙◌, inl, inr, Bool, true, false, not, ◌&&◌, ◌||◌, List, [], ◌∷◌, ◌++◌, arith,
  Bool-cases, Text, equal, equal_iff, equal_comm, elem, text_lt, sort, text_lt_irrefl,
}
use solomon.Packs.State.{identifier, enabled_for, enable, disable, validate_from, validate}
use solomon.Packs.State.Order.{
  validate_from-weaken, validate_from-elem, elem-sort, elem-append, validate_from-insert,
}
use solomon.Packs.State.Search.{enabled_for-elem}

pub not_behind : (x : Text) (ids : List Text) → validate_from x ids ≡ true → elem x ids ≡ false
not_behind x ids v = elim (Bool-cases (elem x ids)) [
  | inl there ↦
      let less = validate_from-elem x x ids v there in let never = text_lt_irrefl x in absurd (cc)
  | inr missing ↦ missing
]

pub validate_from-sort :
    (p id : Text) (ids : List Text)
    → identifier id ≡ true
    → text_lt p id ≡ true
    → elem id ids ≡ false
    → validate_from p ids ≡ true
    → validate_from p (sort text_lt (ids ++ id ∷ [])) ≡ true
unfolding sort validate_from elem
validate_from-sort p id [] i h e v = validate_from-insert p id [] i h refl refl
validate_from-sort p id (x ∷ ids) i h e v =
    let less : text_lt p x ≡ true = ground arith in
    let behind : validate_from x ids ≡ true = ground arith in
    let fresh = not_behind x ids behind in
    let apart = equal_comm x id in
    let new_text : (elem x ids || elem x (id ∷ [])) ≡ false = ground arith in
    let rest =
      validate_from-sort p id ids i h (ground arith) (validate_from-weaken p x ids less behind) in
    validate_from-insert p x (sort text_lt (ids ++ id ∷ [])) (ground arith) less
      (elem-sort x (ids ++ id ∷ []) ∙ elem-append x ids (id ∷ []) ∙ new_text) rest

pub identifier_named : (id : Text) → identifier id ≡ true → text_lt [] id ≡ true
unfolding identifier text_lt
identifier_named [] h = absurd (cc)
identifier_named (c ∷ cs) h = refl

last_elem : (other id : Text) (b : Bool) → (b || elem other (id ∷ [])) ≡ (equal other id || b)
unfolding elem
last_elem other id b = ground arith

-- Enabling a pack in a valid state, where it reports a change, leaves a valid state in which
-- exactly this pack is enabled besides those that were.
pub enable-enabled_for :
    (enabled : List Text) (id other : Text)
    → validate enabled ≡ true
    → (enable enabled id).1 ≡ true
    → (validate (enable enabled id).0 ≡ true)
      × (enabled_for (enable enabled id).0 other ≡ (equal other id || enabled_for enabled other))
unfolding enable validate
enable-enabled_for enabled id other v changed =
    let named : identifier id ≡ true = ground arith in
    let disabled : enabled_for enabled id ≡ false = ground arith in
    let valid =
      validate_from-sort [] id enabled named (identifier_named id named)
        (sym (enabled_for-elem enabled id v) ∙ disabled) v in
    rw (named, disabled)
      (
        valid,
        enabled_for-elem (sort text_lt (enabled ++ id ∷ [])) other valid
            ∙ elem-sort other (enabled ++ id ∷ [])
            ∙ elem-append other enabled (id ∷ [])
            ∙ last_elem other id (elem other enabled)
            ∙ ap (λ (b : Bool). equal other id || b) (sym (enabled_for-elem enabled other v)),
      )

validate_from-disable :
    (p id : Text) (ids : List Text)
    → validate_from p ids ≡ true
    → validate_from p (disable ids id).0 ≡ true
unfolding validate_from disable
validate_from-disable p id [] v = refl
validate_from-disable p id (x ∷ ids) v =
    let less : text_lt p x ≡ true = ground arith in
    let behind : validate_from x ids ≡ true = ground arith in
    let weaker = validate_from-weaken p x ids less behind in
    let rest = validate_from-disable x id ids behind in ground arith

elem-disable :
    (p id other : Text) (ids : List Text)
    → validate_from p ids ≡ true
    → elem other (disable ids id).0 ≡ (not (equal other id) && elem other ids)
unfolding validate_from disable elem
elem-disable p id other [] v = ground arith
elem-disable p id other (x ∷ ids) v =
    let behind : validate_from x ids ≡ true = ground arith in
    let rest = elem-disable x id other ids behind in
    let fresh = not_behind x ids behind in
    elim (Bool-cases (equal x id)) [
      | inl same ↦
          let e : x ≡ id = (equal_iff x id).0 same in
          elim (Bool-cases (equal other x)) [
            | inl it ↦
                let f : other ≡ x = (equal_iff other x).0 it in
                let gone : elem other ids ≡ false = rw f fresh in
                let named : equal other id ≡ true = rw (sym e) it in ground arith
            | inr differs ↦
                let other_name : equal other id ≡ false = rw (sym e) differs in ground arith
          ]
      | inr kept ↦ elim (Bool-cases (equal other x)) [
        | inl it ↦
            let f : other ≡ x = (equal_iff other x).0 it in
            let other_name : equal other id ≡ false = rw f kept in ground arith
        | inr differs ↦ ground arith
      ]
    ]

-- Disabling a pack in a valid state leaves a valid state in which the other packs are enabled as
-- before, and this one is not.
pub disable-enabled_for :
    (enabled : List Text) (id other : Text)
    → validate enabled ≡ true
    → (validate (disable enabled id).0 ≡ true)
      × (enabled_for (disable enabled id).0 other
          ≡ (not (equal other id) && enabled_for enabled other))
unfolding validate
disable-enabled_for enabled id other v =
    let valid = validate_from-disable [] id enabled v in
    (
      valid,
      enabled_for-elem (disable enabled id).0 other valid
          ∙ elem-disable [] id other enabled v
          ∙ ap (λ (b : Bool). not (equal other id) && b) (sym (enabled_for-elem enabled other v)),
    )
