-- ===== src/Diagnose/Tokens.antt =====
-- The tokenizers of internal/diagnose/engine.go. A tokenizer is a record of the loop's variables and
-- a step for one character, which sees the characters behind it; `skip` counts those that the loop
-- passes over because of `index++` or `index += width - 1`.
use solomon.Prelude.{
  ℕ, ◌-◌, Bool, true, false, not, ◌&&◌, ◌||◌, Option, none, some, List, [], ◌∷◌, ◌++◌, ltb, ◌==◌,
  if◌then◌else◌, Result, ok, err, Text, codes, width,
}

pub data TokenError : Type 0 where
  incomplete_shell_input unsupported_shell_syntax : TokenError

pub record Scanner : Type 0 where
  pub result : List Text
  pub current : Text
  pub quote : Option ℕ
  pub escaped : Bool
  pub word_started : Bool
  pub skip : ℕ

abbrev pub scanner : Scanner
scanner = record {
  result = [];
  current = [];
  quote = none;
  escaped = false;
  word_started = false;
  skip = 0;
}

-- current.WriteRune(r)
abbrev pub write_rune : Scanner → ℕ → Scanner
write_rune s r = record s { current = s.current ++ r ∷ [] }

abbrev pub start_word : Scanner → Scanner
start_word s = record s { word_started = true }

unfoldable pub flush : Scanner → Scanner
flush s =
    if s.word_started
    then record s { result = s.result ++ s.current ∷ []; current = []; word_started = false }
    else s

abbrev pub followed_by : ℕ → Text → Bool
followed_by c [] = false
followed_by c (d ∷ _) = d == c

-- What stands at the front of the runes: an operator and its width, or no operator.
abbrev pub operator_at : ℕ → Text → Option (Text × ℕ)
operator_at r next =
    if r == b';' || r == b'(' || r == b')'
    then some (r ∷ [], 1)
    else if r == b'&'
    then some (if followed_by b'&' next then (codes "&&", 2) else (codes "&", 1))
    else if r == b'|'
    then some (
        if followed_by b'|' next
        then (codes "||", 2)
        else if followed_by b'&' next
        then (codes "|&", 2)
        else (codes "|", 1))
    else if r == b'\n'
    then some (codes ";", 1)
    else none

unfoldable pub compound_operator : Text → Option (Text × ℕ)
compound_operator [] = none
compound_operator (r ∷ next) = operator_at r next

-- The rest of the loop's body, outside quotes and escapes.
abbrev pub plain_step : Scanner → ℕ → Option (Text × ℕ) → Scanner
plain_step s r (some (operator, width)) =
    let t = flush s in record t { result = t.result ++ operator ∷ []; skip = width - 1 }
plain_step s r none = if r == b' ' || r == b'\t' then flush s else start_word (write_rune s r)

abbrev pub quoted_step : Scanner → ℕ → ℕ → Scanner
quoted_step s q r =
    if r == q then start_word (record s { quote = none }) else start_word (write_rune s r)

abbrev pub in_single : Option ℕ → Bool
in_single none = false
in_single (some q) = q == b'\''

unfoldable pub tokenize_step : Scanner → ℕ → Text → Scanner
unfolding flush
tokenize_step s r next =
    if ltb 0 s.skip
    then record s { skip = s.skip - 1 }
    else if s.escaped
    then start_word (record (write_rune s r) { escaped = false })
    else if r == b'\\' && not (in_single s.quote)
    then start_word (record s { escaped = true })
    else elim s.quote [
      | some q ↦ quoted_step s q r
      | none ↦
          if r == b'\'' || r == b'"'
          then start_word (record s { quote = some r })
          else plain_step s r (compound_operator (r ∷ next))
    ]

unfoldable pub tokenize_loop : Scanner → Text → Scanner
tokenize_loop s [] = s
tokenize_loop s (r ∷ next) = tokenize_loop (tokenize_step s r next) next

abbrev pub is_none : Option ℕ → Bool
is_none none = true
is_none (some q) = false

unfoldable pub tokenize_end : Scanner → Result TokenError (List Text)
unfolding flush
tokenize_end s =
    if s.escaped || not (is_none s.quote) then err incomplete_shell_input else ok (flush s).result

unfoldable pub tokenize : Text → Result TokenError (List Text)
unfolding tokenize_loop tokenize_end
tokenize line = tokenize_end (tokenize_loop scanner line)
