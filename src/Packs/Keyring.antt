-- ===== src/Packs/Keyring.antt =====
-- The keys of publishers in internal/packs/keyring.go, and signature.go. Reading and writing the
-- file of a keyring is not modelled.
pub mod Searched
pub mod Added
pub mod Revoked
use solomon.Prelude.{
  ℕ, Bool, true, false, not, ◌&&◌, ◌||◌, Option, none, some, List, [], ◌∷◌, ◌++◌, ◌==◌,
  if◌then◌else◌, Result, ok, err, ◌>>◌, guard, length, get_elem?, Text, equal, elem, text_lt, sort,
}
use solomon.Packs.State.{identifier, search_strings}

abbrev pub Bytes : Type 0
Bytes = List ℕ

-- base64.RawStdEncoding, and ed25519.Verify of a key, a payload and a signature.
pub record Crypto : Type 0 where
  pub decode : Text → Option Bytes
  pub encode : Bytes → Text
  pub verify : Bytes → Bytes → Bytes → Bool

pub record PublisherKey : Type 0 where
  pub id : Text
  pub public_key : Text

pub record Keyring : Type 0 where
  pub publishers : List PublisherKey
  pub revoked : List Text

pub data KeyError : Type 0 where
  invalid_publisher_key invalid_publisher_keyring invalid_publisher_revocations : KeyError
  invalid_public_key invalid_signature key_revoked key_unavailable : KeyError
  publisher_exists : Text → KeyError

abbrev pub publisher_ids : List PublisherKey → List Text
publisher_ids [] = []
publisher_ids (p ∷ ps) = p.id ∷ publisher_ids ps

unfoldable pub revoked_for : Keyring → Text → Bool
revoked_for k id = elem id k.revoked

-- The key of the publisher found, if it is the one that is looked for.
abbrev pub key_of : Crypto → Text → Option PublisherKey → Option Bytes
key_of crypto id none = none
key_of crypto id (some p) = if equal p.id id then crypto.decode p.public_key else none

-- sort.Search of the first publisher whose ID is at least id; it is SearchStrings of the IDs.
unfoldable pub public_key : Crypto → Keyring → Text → Option Bytes
unfolding revoked_for
public_key crypto k id =
    if revoked_for k id
    then none
    else key_of crypto id (get_elem? k.publishers (search_strings (publisher_ids k.publishers) id))

-- Is there a key, of the size that ed25519 has?
abbrev pub sized : Option Bytes → Bool
sized none = false
sized (some key) = length key == 32

unfoldable pub parse_publisher_public_key : Crypto → Text → Result KeyError Bytes
parse_publisher_public_key crypto value = of_size (crypto.decode value)
  where
    of_size : Option Bytes → Result KeyError Bytes
    of_size none = err invalid_public_key
    of_size (some key) = if length key == 32 then ok key else err invalid_public_key

unfoldable pub revoke : Keyring → Text → Keyring × Bool
unfolding revoked_for
revoke k id =
    if not (identifier id) || revoked_for k id
    then (k, false)
    else (record k { revoked = sort text_lt (k.revoked ++ id ∷ []) }, true)

abbrev pub publisher_before : PublisherKey → PublisherKey → Bool
publisher_before a b = text_lt a.id b.id

unfoldable pub add : Crypto → Keyring → Text → Bytes → Result KeyError Keyring
add crypto k id key =
    if not (identifier id) || not (length key == 32)
    then err invalid_publisher_key
    else if elem id (publisher_ids k.publishers)
    then err (publisher_exists id)
    else ok record k {
      publishers =
          sort publisher_before
            (k.publishers ++ record { id = id; public_key = crypto.encode key } ∷ []);
    }

unfoldable pub remove_publisher : List PublisherKey → Text → List PublisherKey × Bool
remove_publisher [] id = ([], false)
remove_publisher (p ∷ ps) id =
    let (rest, removed) = remove_publisher ps id in
    if equal p.id id then (ps, true) else (p ∷ rest, removed)

unfoldable pub remove : Keyring → Text → Keyring × Bool
unfolding remove_publisher
remove k id =
    let (publishers, removed) = remove_publisher k.publishers id in
    (record k { publishers = publishers }, removed)

-- The first loop of Keyring.Validate; `id <= previous` is that previous is not before id.
unfoldable pub valid_publishers : Crypto → Text → List PublisherKey → Bool
valid_publishers crypto previous [] = true
valid_publishers crypto previous (p ∷ ps) =
    identifier p.id
    && text_lt previous p.id
    && sized (crypto.decode p.public_key)
    && valid_publishers crypto p.id ps

-- The second loop.
unfoldable pub valid_revocations : Text → List Text → Bool
valid_revocations previous [] = true
valid_revocations previous (id ∷ ids) =
    identifier id && text_lt previous id && valid_revocations id ids

unfoldable pub validate_keyring : Crypto → Keyring → Result KeyError (Unit {0})
unfolding valid_publishers valid_revocations
validate_keyring crypto k = do
  guard (valid_publishers crypto [] k.publishers) invalid_publisher_keyring
  guard (valid_revocations [] k.revoked) invalid_publisher_revocations

unfoldable pub verify_detached_signature :
    Crypto → Bytes → Bytes → Bytes → Result KeyError (Unit {0})
verify_detached_signature crypto payload signature key = do
  guard (length key == 32) invalid_public_key
  guard (length signature == 64) invalid_signature
  guard (crypto.verify key payload signature) invalid_signature

abbrev pub verify_with : Crypto → Bytes → Bytes → Option Bytes → Result KeyError (Unit {0})
verify_with crypto payload signature none = err key_unavailable
verify_with crypto payload signature (some key) =
    verify_detached_signature crypto payload signature key

unfoldable pub verify_publisher_signature :
    Crypto → Bytes → Bytes → Text → Keyring → Result KeyError (Unit {0})
unfolding verify_detached_signature public_key
verify_publisher_signature crypto payload signature publisher k = do
  guard (not (revoked_for k publisher)) key_revoked
  verify_with crypto payload signature (public_key crypto k publisher)
