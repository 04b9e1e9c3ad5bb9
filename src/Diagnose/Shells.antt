-- ===== src/Diagnose/Shells.antt =====
-- The conservative tokenizer of internal/diagnose/engine.go, and the choice of a tokenizer for a shell.
pub mod Conservative
use solomon.Prelude.{
  ℕ, Bool, true, false, not, ◌&&◌, ◌||◌, Option, none, some, List, [], ◌∷◌, ◌++◌, ◌==◌,
  if◌then◌else◌, Result, ok, err, ◌>>=◌, ◌>>◌, Text, codes, equal, contains_rune, contains_any,
  to_lower, trim_space,
}
use solomon.Diagnose.Tokens.{TokenError, incomplete_shell_input, unsupported_shell_syntax, tokenize}
use solomon.Diagnose.Commands.{has_unsupported_shell_syntax}

pub data ShellLexer : Type 0 where
  shell_posix shell_fish shell_powershell : ShellLexer

abbrev is_posix : ShellLexer → Bool
is_posix shell_posix = true
is_posix _ = false

abbrev is_powershell : ShellLexer → Bool
is_powershell shell_powershell = true
is_powershell _ = false

unfoldable pub unsafe_shell_character : ℕ → ShellLexer → Text → Bool → Bool
unsafe_shell_character c lexer shell_name starts_word =
    if contains_rune (codes ";|&()<>$*?[]{}\n#`") c
    then true
    else if is_powershell lexer && (c == b'@' || c == b',')
    then true
    else is_posix lexer && equal (to_lower shell_name) (codes "zsh") && c == b'!'
      || starts_word && c == b'~'

-- The variables of the loop; `skip` is set by `index++`.
pub record Lexing : Type 0 where
  pub result : List Text
  pub current : Text
  pub quote : Option ℕ
  pub word_started : Bool
  pub skip : Bool

abbrev pub lexing : Lexing
lexing = record { result = []; current = []; quote = none; word_started = false; skip = false }

abbrev flush : Lexing → Lexing
flush s =
    if s.word_started
    then record s { result = s.result ++ s.current ∷ []; current = []; word_started = false }
    else s

abbrev put : Lexing → ℕ → Lexing
put s c = record s { current = s.current ++ c ∷ []; word_started = true }

-- What follows a backslash is taken as it is, but for the end of a line.
abbrev put_escaped : Lexing → ℕ → Lexing
put_escaped s next =
    if next == b'\n'
    then record s { word_started = true; skip = true }
    else record (put s next) { skip = true }

abbrev next_is : ℕ → Text → Bool
next_is c [] = false
next_is c (d ∷ _) = d == c

-- Inside double quotes a POSIX shell keeps the backslash before most characters.
abbrev keep_backslash : ShellLexer → Lexing → ℕ → Lexing
keep_backslash lexer s next =
    if is_posix lexer && not (contains_rune (codes "$`\\\"\n") next) then put s b'\\' else s

abbrev escaped_in_double : ShellLexer → Lexing → Text → Result TokenError Lexing
escaped_in_double lexer s [] = err incomplete_shell_input
escaped_in_double lexer s (next ∷ _) = ok (put_escaped (keep_backslash lexer s next) next)

abbrev escaped_outside : Lexing → Text → Result TokenError Lexing
escaped_outside s [] = err incomplete_shell_input
escaped_outside s (next ∷ _) = ok (put_escaped s next)

abbrev in_quote : ShellLexer → Lexing → ℕ → ℕ → Text → Result TokenError Lexing
in_quote lexer s q c rest =
    if q == b'\'' && is_powershell lexer && c == b'\'' && next_is b'\'' rest
    then ok (record (put s c) { skip = true })
    else if c == q
    then ok (record s { quote = none })
    else if q == b'"' && c == b'\\' && not (is_powershell lexer)
    then escaped_in_double lexer s rest
    else if c == b'`' || q == b'"' && c == b'$'
    then err unsupported_shell_syntax
    else ok (put s c)

abbrev outside : ShellLexer → Text → Lexing → ℕ → Text → Result TokenError Lexing
outside lexer shell_name s c rest =
    if c == b' ' || c == b'\t'
    then ok (flush s)
    else if c == b'\'' || c == b'"'
    then ok (record s { quote = some c; word_started = true })
    else if c == b'\\' && not (is_powershell lexer)
    then escaped_outside s rest
    else if unsafe_shell_character c lexer shell_name (not s.word_started)
    then err unsupported_shell_syntax
    else ok (put s c)

unfoldable pub lex_step : ShellLexer → Text → Lexing → ℕ → Text → Result TokenError Lexing
lex_step lexer shell_name s c rest =
    if s.skip then ok (record s { skip = false }) else elim s.quote [
      | some q ↦ in_quote lexer s q c rest
      | none ↦ outside lexer shell_name s c rest
    ]

unfoldable pub lex_loop : ShellLexer → Text → Lexing → Text → Result TokenError Lexing
lex_loop lexer shell_name s [] = ok s
lex_loop lexer shell_name s (c ∷ rest) = do
  t ← lex_step lexer shell_name s c rest
  lex_loop lexer shell_name t rest

abbrev is_open : Option ℕ → Bool
is_open none = false
is_open (some q) = true

unfoldable pub lex_end : Lexing → Result TokenError (List Text)
lex_end s =
    let words = (flush s).result in
    if is_open s.quote
    then err incomplete_shell_input
    else if has_unsupported_shell_syntax words
    then err unsupported_shell_syntax
    else ok words

unfoldable pub tokenize_conservative : Text → ShellLexer → Text → Result TokenError (List Text)
unfolding lex_loop lex_end
tokenize_conservative line lexer shell_name = do
  s ← lex_loop lexer shell_name lexing line
  lex_end s

unfoldable pub tokenize_for_shell : Text → Text → Result TokenError (List Text)
tokenize_for_shell shell_name line =
    let name = to_lower (trim_space shell_name) in
    if equal name []
    then tokenize line
    else if equal name (codes "bash") || equal name (codes "zsh")
    then tokenize_conservative line shell_posix shell_name
    else if equal name (codes "fish")
    then tokenize_conservative line shell_fish shell_name
    else if equal name (codes "powershell") || equal name (codes "pwsh")
    then tokenize_conservative line shell_powershell shell_name
    else err unsupported_shell_syntax

abbrev is_supported : Result TokenError (List Text) → Bool
is_supported (ok words) = not (has_unsupported_shell_syntax words)
is_supported (err e) = false

unfoldable pub shell_command_supported : Text → Text → Bool
shell_command_supported shell_name line = is_supported (tokenize_for_shell shell_name line)

unfoldable pub rewrite_compatible : Text → Text → Bool
rewrite_compatible shell_name line =
    equal shell_name [] || not (contains_any line (codes "'\\\"\\\\"))
