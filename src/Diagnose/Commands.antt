-- ===== src/Diagnose/Commands.antt =====
-- Where commands begin in a list of words, of internal/diagnose/engine.go.
pub mod Positions
use solomon.Prelude.{
  ℕ, ◌+◌, Bool, true, false, not, ◌&&◌, ◌||◌, Option, none, some, List, [], ◌∷◌, leb, ◌==◌,
  if◌then◌else◌, ◌>>◌, Text, codes, equal, elem, contains_any, to_lower, cut_at,
}

abbrev compound_operators : List Text
compound_operators =
    codes ";"
    ∷ codes "&"
    ∷ codes "&&"
    ∷ codes "|"
    ∷ codes "|&"
    ∷ codes "||"
    ∷ codes "("
    ∷ codes ")"
    ∷ []

unfoldable pub is_compound_operator : Text → Bool
is_compound_operator value = elem value compound_operators

abbrev shell_keywords : List Text
shell_keywords =
    codes "if"
    ∷ codes "then"
    ∷ codes "else"
    ∷ codes "fi"
    ∷ codes "for"
    ∷ codes "while"
    ∷ codes "do"
    ∷ codes "done"
    ∷ codes "case"
    ∷ codes "esac"
    ∷ codes "function"
    ∷ codes "time"
    ∷ codes "command"
    ∷ codes "builtin"
    ∷ codes "exec"
    ∷ codes "sudo"
    ∷ []

unfoldable pub is_shell_keyword : Text → Bool
is_shell_keyword value = elem value shell_keywords

-- The characters of a variable's name, a digit only behind the first.
abbrev name_character : Bool → ℕ → Bool
name_character first c =
    c == b'_'
    || leb b'a' c && leb c b'z'
    || leb b'A' c && leb c b'Z'
    || not first && leb b'0' c && leb c b'9'

names_variable : Bool → Text → Bool
names_variable first [] = true
names_variable first (c ∷ cs) = name_character first c && names_variable false cs

abbrev is_assignment : Text → Option Text → Bool
is_assignment name none = false
is_assignment [] (some value) = false
is_assignment (c ∷ cs) (some value) = names_variable true (c ∷ cs)

unfoldable pub assignment_word : Text → Bool
unfolding names_variable
assignment_word value = let (name, after) = cut_at b'=' value in is_assignment name after

-- A word that leaves the next one in command position.
abbrev pub keeps_position : Text → Bool
keeps_position word = is_shell_keyword word || assignment_word word

-- The loop of commandPositions: its index and expectCommand.
unfoldable pub positions_from : ℕ → Bool → List Text → List ℕ
positions_from index expect_command [] = []
positions_from index expect_command (word ∷ words) =
    let opened = positions_from (index + 1) (not (equal word (codes ")"))) words in
    let same = positions_from (index + 1) expect_command words in
    let found = index ∷ positions_from (index + 1) false words in
    if is_compound_operator word
    then opened
    else if not expect_command
    then same
    else if keeps_position word
    then same
    else found

unfoldable pub command_positions : List Text → List ℕ
unfolding positions_from
command_positions words = positions_from 0 true words

-- The loop of commandStartAt.
unfoldable pub start_from : ℕ → ℕ → Bool → List Text → Bool
start_from target position expect_command [] = false
start_from target position expect_command (word ∷ words) =
    let opened = start_from target (position + 1) (not (equal word (codes ")"))) words in
    let same = start_from target (position + 1) expect_command words in
    let closed = start_from target (position + 1) false words in
    if is_compound_operator word
    then opened
    else if not expect_command
    then same
    else if position == target
    then true
    else if keeps_position word
    then same
    else closed

unfoldable pub command_start_at : List Text → ℕ → Bool
unfolding start_from
command_start_at words target = start_from target 0 true words

unsupported_characters : Text
unsupported_characters = codes "<>`$*?[]{}"

unfoldable pub has_unsupported_shell_syntax : List Text → Bool
unfolding unsupported_characters
has_unsupported_shell_syntax [] = false
has_unsupported_shell_syntax (word ∷ words) =
    is_compound_operator word
    || contains_any word unsupported_characters
    || has_unsupported_shell_syntax words

-- What stands behind the last slash or backslash, in lower case.
base_from : Text → Text → Text
base_from base [] = base
base_from base (c ∷ cs) = base_from (if c == b'/' || c == b'\\' then cs else base) cs

unfoldable pub command_name : Text → Text
unfolding base_from
command_name value = to_lower (base_from value value)

unfoldable pub has_argument : List Text → Text → Bool
has_argument [] value = false
has_argument (word ∷ words) value =
    if is_compound_operator word
    then false
    else if equal word value
    then true
    else has_argument words value
