-- ===== src/Packs/Keyring/Revoked.antt =====
-- A publisher that is revoked.
use solomon.Prelude.{
  ◌≡◌, refl, sym, ap, ◌∙◌, Bool, true, false, ◌&&◌, ◌||◌, List, [], ◌∷◌, ◌++◌, arith, if◌then◌else◌,
  ok, err, Text, equal, elem, text_lt, sort,
}
use solomon.Packs.State.{identifier, validate_from}
use solomon.Packs.State.Order.{elem-sort, elem-append}
use solomon.Packs.State.Enabled.{validate_from-sort, identifier_named}
use solomon.Packs.Keyring.{
  Bytes, Crypto, Keyring, key_revoked, revoked_for, revoke, valid_publishers, valid_revocations,
  validate_keyring, verify_publisher_signature,
}

valid_revocations-validate_from :
    (previous : Text) (ids : List Text)
    → valid_revocations previous ids ≡ validate_from previous ids
unfolding valid_revocations validate_from
valid_revocations-validate_from previous [] = refl
valid_revocations-validate_from previous (id ∷ ids) =
    ap (λ (b : Bool). identifier id && text_lt previous id && b)
      (valid_revocations-validate_from id ids)

elem-revoke :
    (other id : Text) (ids : List Text)
    → elem other (sort text_lt (ids ++ id ∷ [])) ≡ (elem other ids || equal other id)
unfolding elem
elem-revoke other id ids =
    let last : elem other (id ∷ []) ≡ equal other id = ground arith in
    elem-sort other (ids ++ id ∷ [])
    ∙ elem-append other ids (id ∷ [])
    ∙ ap (λ (b : Bool). elem other ids || b) last

-- Where a revocation of a valid keyring takes effect, the keyring stays valid, no signature of the
-- publisher is accepted any longer, whatever is signed, and those of all others are judged as before.
pub revoke-verify_publisher_signature :
    (crypto : Crypto) (k : Keyring) (id publisher : Text) (payload signature : Bytes)
    → validate_keyring crypto k ≡ ok tt
    → (revoke k id).1 ≡ true
    → (validate_keyring crypto (revoke k id).0 ≡ ok tt)
      × (verify_publisher_signature crypto payload signature publisher (revoke k id).0 ≡ (
          if equal publisher id
          then err key_revoked
          else verify_publisher_signature crypto payload signature publisher k))
unfolding validate_keyring revoke revoked_for verify_publisher_signature
revoke-verify_publisher_signature crypto k id publisher payload signature valid changed =
    let named : identifier id ≡ true = ground arith in
    let fresh : elem id k.revoked ≡ false = ground arith in
    let publishers : valid_publishers crypto [] k.publishers ≡ true = ground arith in
    let revocations : valid_revocations [] k.revoked ≡ true = ground arith in
    let now : List Text = sort text_lt (k.revoked ++ id ∷ []) in
    let good : valid_revocations [] now ≡ true =
      valid_revocations-validate_from [] now
      ∙ validate_from-sort [] id k.revoked named (identifier_named id named) fresh
          (sym (valid_revocations-validate_from [] k.revoked) ∙ revocations) in
    let listed = elem-revoke publisher id k.revoked in
    rw (named, fresh) (rw (publishers, good) refl, ground arith)
