-- ===== src/Redact/Words.antt =====
-- What redact.Command hides, and what it leaves alone.
use solomon.Prelude.{
  ℕ, zero, suc, ◌<◌, ◌≡◌, refl, Bool, true, false, ◌&&◌, ◌||◌, some, List, [], ◌∷◌, arith,
  if◌then◌else◌, length, get_elem?, Text, codes, equal, equal_iff, join_with,
}
use solomon.Redact.{
  Patterns, replacement, secret_flag, text, word_value, redact_words, command, contains_secret,
  has_next,
}

module _ (patterns : Patterns) where
  -- Once something was changed, the report stays.
  redact_words_changed :
      (words : List Text) (preset : Text) → (redact_words patterns preset true words).1 ≡ true
  unfolding redact_words
  redact_words_changed [] preset = refl
  redact_words_changed (w ∷ ws) preset =
      redact_words_changed ws (if secret_flag w && has_next ws then replacement else [])

  text_unchanged : (word : Text) → (text patterns word).1 ≡ false → (text patterns word).0 ≡ word
  unfolding text
  text_unchanged word h =
      let redacted = (text patterns word).0 in ground (arith, equal_iff redacted word)

  word_value_unchanged :
      (word : Text) → (word_value patterns word).1 ≡ false → (word_value patterns word).0 ≡ word
  unfolding word_value
  word_value_unchanged word h = ground (arith, text_unchanged word)

  -- The word behind a flag such as --token is replaced whole, whatever it is, and the change is
  -- reported.
  pub redact_words-secret_flag :
      (words : List Text) (k : ℕ) (preset : Text) (changed : Bool) (flag : Text)
      → get_elem? words k ≡ some flag
      → secret_flag flag ≡ true
      → suc k < length words
      → (get_elem? (redact_words patterns preset changed words).0 (suc k) ≡ some replacement)
        × ((redact_words patterns preset changed words).1 ≡ true)
  unfolding redact_words equal
  redact_words-secret_flag [] k preset changed flag h s l = absurd (omega arith)
  redact_words-secret_flag (w ∷ []) k preset changed flag h s l = absurd (omega arith)
  redact_words-secret_flag (w ∷ v ∷ ws) zero preset changed flag h s l =
      let e : secret_flag w ≡ true = cc in
      (
        rw e refl,
        ground (
          arith,
          redact_words_changed ws (if secret_flag v && has_next ws then replacement else []),
        ),
      )
  redact_words-secret_flag (w ∷ v ∷ ws) (suc k) preset changed flag h s l =
      redact_words-secret_flag (v ∷ ws) k (if secret_flag w && true then replacement else [])
        (changed || secret_flag w && true || (word_value patterns w).1) flag h s (omega arith)

  -- Where nothing is reported as changed the words are as they were, and no flag has a value to hide.
  pub redact_words_unchanged :
      (words : List Text) (changed : Bool)
      → (redact_words patterns [] changed words).1 ≡ false
      → ((redact_words patterns [] changed words).0 ≡ words) × (changed ≡ false)
  unfolding redact_words equal
  redact_words_unchanged [] changed h = (refl, h)
  redact_words_unchanged (w ∷ ws) changed h =
      let flagged = secret_flag w && has_next ws in
      let altered = changed || flagged || (word_value patterns w).1 in
      ground (
        arith,
        redact_words_changed ws (if flagged then replacement else []),
        redact_words_unchanged ws altered,
        word_value_unchanged w,
      )

  -- A command that the program reports as free of secrets is shown as its words, joined by spaces.
  pub command_unchanged :
      (words : List Text)
      → contains_secret patterns words ≡ false
      → (command patterns words).0 ≡ join_with (codes " ") words
  unfolding contains_secret command
  command_unchanged words h = rw ((redact_words_unchanged words false h).0)
