-- ===== src/Packs/Keyring/Searched.antt =====
-- The key that a keyring has for a publisher.
use solomon.Prelude.{
  ℕ, zero, suc, ◌<◌, ◌≡◌, refl, sym, ap, ◌∙◌, inl, inr, true, false, Option, none, some, List, [],
  ◌∷◌, ◌++◌, arith, if◌then◌else◌, Bool-cases, get_elem?, Text, equal, equal_iff, equal_comm, elem,
  text_lt, insert, sort, text_lt_irrefl,
}
use solomon.Packs.State.{search_strings, validate_from, is_before, is_at, enabled_for}
use solomon.Packs.State.Search.{search_strings-Boundary, enabled_for-elem}
use solomon.Packs.Keyring.{
  Crypto, PublisherKey, Keyring, publisher_ids, revoked_for, key_of, public_key, publisher_before,
  valid_publishers,
}

-- The first publisher with an id.
abbrev pub lookup : List PublisherKey → Text → Option PublisherKey
lookup [] id = none
lookup (p ∷ ps) id = if equal p.id id then some p else lookup ps id

-- The publishers' ids ascend.
pub valid_publishers-validate_from :
    (crypto : Crypto) (previous : Text) (ps : List PublisherKey)
    → valid_publishers crypto previous ps ≡ true
    → validate_from previous (publisher_ids ps) ≡ true
unfolding valid_publishers validate_from
valid_publishers-validate_from crypto previous [] v = refl
valid_publishers-validate_from crypto previous (p ∷ ps) v =
    let rest = valid_publishers-validate_from crypto p.id ps (ground arith) in ground arith

pub publisher_ids-append :
    (ps qs : List PublisherKey) → publisher_ids (ps ++ qs) ≡ publisher_ids ps ++ publisher_ids qs
publisher_ids-append [] qs = refl
publisher_ids-append (p ∷ ps) qs = ap (λ t. p.id ∷ t) (publisher_ids-append ps qs)

publisher_ids-insert :
    (p : PublisherKey) (ps : List PublisherKey)
    → publisher_ids (insert publisher_before p ps) ≡ insert text_lt p.id (publisher_ids ps)
unfolding insert
publisher_ids-insert p [] = refl
publisher_ids-insert p (q ∷ ps) = elim (Bool-cases (text_lt q.id p.id)) [
  | inl behind ↦ rw (behind, publisher_ids-insert p ps) refl
  | inr before ↦ rw before refl
]

pub publisher_ids-sort :
    (ps : List PublisherKey)
    → publisher_ids (sort publisher_before ps) ≡ sort text_lt (publisher_ids ps)
unfolding sort
publisher_ids-sort [] = refl
publisher_ids-sort (p ∷ ps) =
    publisher_ids-insert p (sort publisher_before ps)
    ∙ ap (insert text_lt p.id) (publisher_ids-sort ps)

-- The publisher at the index, if the ids in front of the index are others.
lookup-get_elem? :
    (crypto : Crypto) (ps : List PublisherKey) (id : Text) (r : ℕ)
    → ((i : ℕ) → i < r → is_before id (get_elem? (publisher_ids ps) i) ≡ true)
    → is_at id (get_elem? (publisher_ids ps) r) ≡ true
    → key_of crypto id (get_elem? ps r) ≡ key_of crypto id (lookup ps id)
lookup-get_elem? crypto [] id r front at = refl
lookup-get_elem? crypto (p ∷ ps) id zero front at = ground arith
lookup-get_elem? crypto (p ∷ ps) id (suc r) front at = elim (Bool-cases (equal p.id id)) [
  | inl same ↦
      let e : p.id ≡ id = (equal_iff p.id id).0 same in
      let less : text_lt p.id id ≡ true = front 0 (omega arith) in
      let never = text_lt_irrefl id in absurd (cc)
  | inr other ↦ rw other (lookup-get_elem? crypto ps id r (λ i h. front (suc i) (omega arith)) at)
]

lookup-missing :
    (ps : List PublisherKey) (id : Text) → elem id (publisher_ids ps) ≡ false → lookup ps id ≡ none
unfolding elem
lookup-missing [] id h = refl
lookup-missing (p ∷ ps) id h =
    let apart = equal_comm p.id id in
    let rest = lookup-missing ps id (ground arith) in
    let differs : equal p.id id ≡ false = ground arith in rw differs rest

get_elem?-ids :
    (ps : List PublisherKey) (r : ℕ) (id : Text) (crypto : Crypto)
    → is_at id (get_elem? (publisher_ids ps) r) ≡ false
    → key_of crypto id (get_elem? ps r) ≡ none
get_elem?-ids [] r id crypto h = refl
get_elem?-ids (p ∷ ps) zero id crypto h = rw h refl
get_elem?-ids (p ∷ ps) (suc r) id crypto h = get_elem?-ids ps r id crypto h

-- In a valid keyring the binary search finds the key of a publisher that is not revoked.
pub public_key-lookup :
    (crypto : Crypto) (k : Keyring) (id : Text)
    → validate_from [] (publisher_ids k.publishers) ≡ true
    → public_key crypto k id
      ≡ (if revoked_for k id then none else key_of crypto id (lookup k.publishers id))
unfolding public_key enabled_for
public_key-lookup crypto k id v =
    let ids = publisher_ids k.publishers in
    let r = search_strings ids id in
    let (front, back) = search_strings-Boundary ids id v in
    elim (Bool-cases (is_at id (get_elem? ids r))) [
      | inl at ↦ rw (lookup-get_elem? crypto k.publishers id r front at) refl
      | inr other ↦
          let found : elem id ids ≡ false = sym (enabled_for-elem ids id v) ∙ other in
          rw (get_elem?-ids k.publishers r id crypto other, lookup-missing k.publishers id found)
            refl
    ]
