-- ===== src/Packs/State.antt =====
-- The enabled packs of internal/packs/state.go, a sorted list of identifiers.
pub mod Order
pub mod Search
pub mod Enabled
use solomon.Prelude.{
  ℕ, zero, suc, ◌+◌, Bool, true, false, not, ◌&&◌, ◌||◌, Option, none, some, List, [], ◌∷◌, ◌++◌,
  ltb, leb, ◌==◌, if◌then◌else◌, length, get_elem?, Text, equal, text_lt, sort, ◌/◌,
}

abbrev is_lower : ℕ → Bool
is_lower c = leb b'a' c && leb c b'z'

abbrev is_alphanumeric : ℕ → Bool
is_alphanumeric c = is_lower c || leb b'0' c && leb c b'9'

-- What is left of an identifier, behind one of its characters.
identifier_rest : Text → Bool
identifier_rest [] = true
identifier_rest (c ∷ []) = is_alphanumeric c
identifier_rest (c ∷ d ∷ cs) =
    let rest = identifier_rest (d ∷ cs) in
    let behind = identifier_rest cs in
    if c == b'-' then is_alphanumeric d && behind else is_alphanumeric c && rest

-- ^[a-z][a-z0-9]*(?:-[a-z0-9]+)*$
unfoldable pub identifier : Text → Bool
unfolding identifier_rest
identifier [] = false
identifier (c ∷ cs) = is_lower c && identifier_rest cs

-- Is the text at the index before the one that is looked for?
abbrev pub is_before : Text → Option Text → Bool
is_before id none = false
is_before id (some x) = text_lt x id

-- sort.SearchStrings: the binary search between two indices; each round leaves less than half of
-- what is between them, so that as many rounds as there are texts are enough.
unfoldable pub search_between : ℕ → List Text → Text → ℕ → ℕ → ℕ
search_between zero xs id low high = low
search_between (suc rounds) xs id low high =
    let middle = (low + high) / 2 in
    let right = search_between rounds xs id (middle + 1) high in
    let left = search_between rounds xs id low middle in
    if not (ltb low high) then low else if is_before id (get_elem? xs middle) then right else left

unfoldable pub search_strings : List Text → Text → ℕ
unfolding search_between
search_strings xs id = search_between (length xs) xs id 0 (length xs)

abbrev pub is_at : Text → Option Text → Bool
is_at id none = false
is_at id (some x) = equal x id

unfoldable pub enabled_for : List Text → Text → Bool
enabled_for enabled id = is_at id (get_elem? enabled (search_strings enabled id))

unfoldable pub enable : List Text → Text → List Text × Bool
enable enabled id =
    if not (identifier id) || enabled_for enabled id
    then (enabled, false)
    else (sort text_lt (enabled ++ id ∷ []), true)

unfoldable pub disable : List Text → Text → List Text × Bool
disable [] id = ([], false)
disable (x ∷ xs) id =
    let (rest, removed) = disable xs id in if equal x id then (xs, true) else (x ∷ rest, removed)

-- The loop of State.Validate.
unfoldable pub validate_from : Text → List Text → Bool
validate_from previous [] = true
validate_from previous (id ∷ ids) = identifier id && text_lt previous id && validate_from id ids

-- State.Validate: does it return no error?
unfoldable pub validate : List Text → Bool
unfolding validate_from
validate enabled = validate_from [] enabled
