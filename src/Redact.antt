-- ===== src/Redact.antt =====
-- internal/redact/redact.go. The five regular expressions are compiled by the regexp library; what
-- `ReplaceAllString` does with each of them is a parameter, one function for each expression.
pub mod Words
use solomon.Prelude.{
  ℕ, ◌-◌, Bool, true, false, not, ◌&&◌, ◌||◌, Option, none, some, List, [], ◌∷◌, ◌++◌, map, ◌==◌,
  if◌then◌else◌, Text, codes, equal, has_prefix, has_suffix, contains_rune, to_upper, cut_at,
  join_with,
}

pub record Patterns : Type 0 where
  pub secret_assignment : Text → Text
  pub url_user_info : Text → Text
  pub bearer_credential : Text → Text
  pub authorization_credential : Text → Text
  pub cookie_credential : Text → Text

abbrev pub replacement : Text
replacement = codes "[REDACTED]"

-- strings.TrimLeft(value, "-")
trim_dashes : Text → Text
trim_dashes [] = []
trim_dashes (c ∷ cs) = if c == b'-' then trim_dashes cs else c ∷ cs

abbrev underscored : ℕ → ℕ
underscored c = if c == b'-' || c == b'.' then b'_' else c

abbrev secret_suffixes : List Text
secret_suffixes =
    codes "TOKEN"
    ∷ codes "SECRET"
    ∷ codes "PASSWORD"
    ∷ codes "PASSWD"
    ∷ codes "API_KEY"
    ∷ codes "APIKEY"
    ∷ codes "ACCESS_KEY"
    ∷ codes "PRIVATE_KEY"
    ∷ codes "CREDENTIAL"
    ∷ codes "AUTHORIZATION"
    ∷ codes "COOKIE"
    ∷ []

names_secret : Text → List Text → Bool
names_secret value [] = false
names_secret value (suffix ∷ suffixes) =
    equal value suffix || has_suffix value (b'_' ∷ suffix) || names_secret value suffixes

unfoldable pub secret_name : Text → Bool
unfolding trim_dashes names_secret
secret_name value = names_secret (to_upper (map underscored (trim_dashes value))) secret_suffixes

unfoldable pub secret_flag : Text → Bool
secret_flag value =
    has_prefix value (codes "--") && not (contains_rune value b'=') && secret_name value

-- What follows the first `=`, if there is one, belongs to the name before it.
unfoldable pub secret_assignment_in : Text → Option Text
secret_assignment_in word =
    let (key, after) = cut_at b'=' word in
    elim after [ none ↦ none | some rest ↦ if secret_name key then some key else none ]

abbrev pub has_next : List Text → Bool
has_next [] = false
has_next (w ∷ ws) = true

module _ (patterns : Patterns) where
  unfoldable pub text : Text → Text × Bool
  text value =
      let redacted = patterns.cookie_credential (
        patterns.authorization_credential (
          patterns.bearer_credential
            (patterns.url_user_info (patterns.secret_assignment value)))) in
      (redacted, not (equal redacted value))

  -- The value of one word, and whether it was changed.
  abbrev pub masked : Option Text → Text → Text × Bool
  masked none word = text word
  masked (some key) word = (key ++ (b'=' ∷ replacement), true)

  unfoldable pub word_value : Text → Text × Bool
  word_value word = masked (secret_assignment_in word) word

  -- The loop of Command: `preset` is what the word before has put at redacted[index].
  unfoldable pub redact_words : Text → Bool → List Text → List Text × Bool
  redact_words preset changed [] = ([], changed)
  redact_words preset changed (word ∷ rest) =
      let flagged = secret_flag word && has_next rest in
      let (value, value_changed) = word_value word in
      let (words, finally) =
        redact_words (if flagged then replacement else []) (changed || flagged || value_changed)
          rest in
      ((if equal preset [] then value else preset) ∷ words, finally)

  unfoldable pub command : List Text → Text × Bool
  unfolding redact_words
  command words =
      let (redacted, changed) = redact_words [] false words in
      (join_with (codes " ") redacted, changed)

  unfoldable pub contains_secret : List Text → Bool
  unfolding command
  contains_secret words = (command words).1

abbrev pub no_patterns : Patterns
no_patterns = record {
  secret_assignment = λ s. s;
  url_user_info = λ s. s;
  bearer_credential = λ s. s;
  authorization_credential = λ s. s;
  cookie_credential = λ s. s;
}
