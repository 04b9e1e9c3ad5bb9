-- ===== src/Diagnose/Shells/Conservative.antt =====
-- Where a rewrite is allowed, the conservative tokenizer and the plain one read the same words.
use solomon.Prelude.{
  ℕ, ◌≡◌, Bool, false, none, List, ◌==◌, Result, ok, err, All, Text, trim_left_space,
  trim_left_space,
}
use solomon.Diagnose.Tokens.{TokenError, flush, Scanner, scanner}
use solomon.Diagnose.Shells.{flush as lex_flush, Lexing, lexing}

-- The scanner that stands where the lexer stands outside quotes.
abbrev as_scanner : Lexing → Scanner
as_scanner s = record scanner {
  result = s.result;
  current = s.current;
  word_started = s.word_started;
}

abbrev IsPlain : ℕ → Type 0
IsPlain c = ((c == b'\'') ≡ false) × ((c == b'"') ≡ false) × ((c == b'\\') ≡ false)

record IsUnquoted (s : Lexing) : Type 0 where
  unquoted : s.quote ≡ none
  exact : s.skip ≡ false

abbrev Agrees : Scanner → Result TokenError Lexing → Type 0
Agrees t (ok s) = (t ≡ as_scanner s) × IsUnquoted s
Agrees t (err e) = Unit

abbrev plain_lexing : List Text → Text → Bool → Lexing
plain_lexing result current started = record lexing {
  result = result;
  current = current;
  word_started = started;
}

abbrev pub AllPlain : Text → Type 0
AllPlain = All IsPlain
