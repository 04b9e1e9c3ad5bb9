-- ===== src/Packs/Keyring/Added.antt =====
-- A key that is added to a keyring.
use solomon.Prelude.{
  ◌≡◌, refl, sym, ap, ◌∙◌, inl, inr, true, false, ◌||◌, none, some, List, [], ◌∷◌, ◌++◌, arith,
  ◌==◌, if◌then◌else◌, Bool-cases, ok, length, Text, equal, equal_iff, equal_comm, elem, text_lt,
  insert, sort, text_lt_trans, text_lt_total,
}
use solomon.Packs.State.{identifier, validate_from}
use solomon.Packs.State.Order.{elem-sort, elem-append}
use solomon.Packs.State.Enabled.{not_behind, identifier_named}
use solomon.Packs.Keyring.{
  Bytes, Crypto, PublisherKey, Keyring, publisher_ids, revoked_for, public_key, sized,
  publisher_before, add, valid_publishers, valid_revocations, validate_keyring,
}
use solomon.Packs.Keyring.Searched.{
  lookup, publisher_ids-append, publisher_ids-sort, valid_publishers-validate_from,
  public_key-lookup,
}

-- Where the first publisher with an id is, if a publisher is put in whose id is not there.
lookup-insert :
    (p : PublisherKey) (ps : List PublisherKey) (other : Text)
    → elem p.id (publisher_ids ps) ≡ false
    → lookup (insert publisher_before p ps) other
      ≡ (if equal p.id other then some p else lookup ps other)
unfolding insert elem
lookup-insert p [] other fresh = refl
lookup-insert p (q ∷ ps) other fresh = elim (Bool-cases (text_lt q.id p.id)) [
  | inr before ↦ rw before refl
  | inl behind ↦
      let rest = lookup-insert p ps other (ground arith) in
      elim (Bool-cases (equal q.id other)) [
        | inr differs ↦ rw (behind, differs) rest
        | inl same ↦
            let e : q.id ≡ other = (equal_iff q.id other).0 same in
            let apart : equal p.id other ≡ false = rw (sym e) (ground arith) in
            rw (behind, same, apart) refl
      ]
]

-- The first id of an ascending list is not among the others, with a new one put in.
fresh_head_lem :
    (p q : PublisherKey) (ps : List PublisherKey)
    → validate_from q.id (publisher_ids ps) ≡ true
    → equal p.id q.id ≡ false
    → elem q.id (publisher_ids (sort publisher_before (ps ++ p ∷ []))) ≡ false
unfolding elem
fresh_head_lem p q ps behind differs =
    let new_head : (elem q.id (publisher_ids ps) || elem q.id (p.id ∷ [])) ≡ false =
      ground (arith, not_behind q.id (publisher_ids ps) behind, equal_comm p.id q.id) in
    ap (elem q.id) (publisher_ids-sort (ps ++ p ∷ []))
    ∙ elem-sort q.id (publisher_ids (ps ++ p ∷ []))
    ∙ ap (elem q.id) (publisher_ids-append ps (p ∷ []))
    ∙ elem-append q.id (publisher_ids ps) (p.id ∷ [])
    ∙ new_head

lookup-add :
    (crypto : Crypto) (p : PublisherKey) (previous : Text) (ps : List PublisherKey) (other : Text)
    → validate_from previous (publisher_ids ps) ≡ true
    → elem p.id (publisher_ids ps) ≡ false
    → lookup (sort publisher_before (ps ++ p ∷ [])) other
      ≡ (if equal p.id other then some p else lookup ps other)
unfolding sort validate_from elem
lookup-add crypto p previous [] other v fresh = lookup-insert p [] other refl
lookup-add crypto p previous (q ∷ ps) other v fresh =
    let behind : validate_from q.id (publisher_ids ps) ≡ true = ground arith in
    let rest = lookup-add crypto p q.id ps other behind (ground arith) in
    let fresh_head = fresh_head_lem p q ps behind (ground arith) in
    lookup-insert q (sort publisher_before (ps ++ p ∷ [])) other fresh_head
    ∙ elim (Bool-cases (equal q.id other)) [
      | inr differs ↦ rw differs rest
      | inl same ↦
          let e : q.id ≡ other = (equal_iff q.id other).0 same in
          let apart : equal p.id other ≡ false = rw (sym e) (ground arith) in rw (same, apart) refl
    ]

valid_publishers-insert :
    (crypto : Crypto) (previous : Text) (p : PublisherKey) (ps : List PublisherKey)
    → identifier p.id ≡ true
    → sized (crypto.decode p.public_key) ≡ true
    → elem p.id (publisher_ids ps) ≡ false
    → text_lt previous p.id ≡ true
    → valid_publishers crypto previous ps ≡ true
    → valid_publishers crypto previous (insert publisher_before p ps) ≡ true
unfolding valid_publishers insert elem
valid_publishers-insert crypto previous p [] i s fresh less v = ground arith
valid_publishers-insert crypto previous p (q ∷ ps) i s fresh less v =
    elim (Bool-cases (text_lt q.id p.id)) [
      | inl behind ↦
          let rest =
            valid_publishers-insert crypto q.id p ps i s (ground arith) behind (ground arith) in
          ground arith
      | inr before ↦ elim (Bool-cases (text_lt p.id q.id)) [
        | inl smaller ↦ ground arith
        | inr neither ↦ let same = text_lt_total p.id q.id neither before in absurd (ground arith)
      ]
    ]

valid_publishers-weaken :
    (crypto : Crypto) (p q : Text) (ps : List PublisherKey)
    → text_lt p q ≡ true
    → valid_publishers crypto q ps ≡ true
    → valid_publishers crypto p ps ≡ true
unfolding valid_publishers
valid_publishers-weaken crypto p q [] h v = refl
valid_publishers-weaken crypto p q (x ∷ ps) h v =
    let less = text_lt_trans p q x.id h (ground arith) in ground arith

valid_publishers-add :
    (crypto : Crypto) (previous : Text) (p : PublisherKey) (ps : List PublisherKey)
    → identifier p.id ≡ true
    → sized (crypto.decode p.public_key) ≡ true
    → elem p.id (publisher_ids ps) ≡ false
    → text_lt previous p.id ≡ true
    → valid_publishers crypto previous ps ≡ true
    → valid_publishers crypto previous (sort publisher_before (ps ++ p ∷ [])) ≡ true
unfolding valid_publishers sort elem
valid_publishers-add crypto previous p [] i s fresh less v = ground arith
valid_publishers-add crypto previous p (q ∷ ps) i s fresh less v =
    let before : text_lt previous q.id ≡ true = ground arith in
    let behind : valid_publishers crypto q.id ps ≡ true = ground arith in
    let rest =
      valid_publishers-add crypto previous p ps i s (ground arith) less
        (valid_publishers-weaken crypto previous q.id ps before behind) in
    valid_publishers-insert crypto previous q (sort publisher_before (ps ++ p ∷ [])) (ground arith)
      (ground arith)
      (fresh_head_lem p q ps (valid_publishers-validate_from crypto q.id ps behind) (ground arith))
      before rest

-- A key that is added to a valid keyring leaves a valid keyring, in which it is the key of its
-- publisher, unless that publisher is revoked; every other publisher keeps its key.
pub add-public_key :
    (crypto : Crypto) (k after : Keyring) (id other : Text) (key : Bytes)
    → crypto.decode (crypto.encode key) ≡ some key
    → validate_keyring crypto k ≡ ok tt
    → add crypto k id key ≡ ok after
    → (validate_keyring crypto after ≡ ok tt)
      × (public_key crypto after other ≡ (
          if equal id other
          then (if revoked_for k other then none else some key)
          else public_key crypto k other))
unfolding validate_keyring add revoked_for
add-public_key crypto k after id other key round valid added =
    let p : PublisherKey = record { id = id; public_key = crypto.encode key } in
    let named : identifier id ≡ true = ground arith in
    let size : (length key == 32) ≡ true = ground arith in
    let fresh : elem id (publisher_ids k.publishers) ≡ false = ground arith in
    let publishers : valid_publishers crypto [] k.publishers ≡ true = ground arith in
    let revocations : valid_revocations [] k.revoked ≡ true = ground arith in
    let same : after ≡ record k { publishers = sort publisher_before (k.publishers ++ p ∷ []) } =
      ground arith in
    let good =
      valid_publishers-add crypto [] p k.publishers named (rw round size) fresh
        (identifier_named id named) publishers in
    let ascends = valid_publishers-validate_from crypto [] k.publishers publishers in
    let ascends' =
      valid_publishers-validate_from crypto [] (sort publisher_before (k.publishers ++ p ∷ []))
        good in
    rw same (
      rw (good, revocations) refl,
      public_key-lookup crypto
            (record k { publishers = sort publisher_before (k.publishers ++ p ∷ []) }) other
            ascends'
          ∙ rw
              (
                lookup-add crypto p [] k.publishers other ascends fresh,
                public_key-lookup crypto k other ascends,
              )
              (ground arith),
    )
