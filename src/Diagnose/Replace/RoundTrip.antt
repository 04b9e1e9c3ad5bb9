-- ===== src/Diagnose/Replace/RoundTrip.antt =====
-- What quotedReplacement writes is one word, and the tokenizer reads it back as the replacement.
use solomon.Prelude.{
  ℕ, ◌≡◌, refl, ◌∙◌, ◌⊎◌, inl, inr, Bool, true, false, ◌||◌, some, List, [], ◌∷◌, ◌++◌,
  append_assoc, append-nil, arith, ◌==◌, Bool-cases, Text, ==_iff,
}
use solomon.Diagnose.Tokens.{Scanner, scanner, tokenize_step, tokenize_loop, compound_operator}
use solomon.Diagnose.Replace.{escape_single, escape_double, quoted_replacement, wrapped_in}

-- The scanner inside a quote, behind the words `result`.
abbrev inside : ℕ → List Text → Text → Scanner
inside q result current = record {
  result = result;
  current = current;
  quote = some q;
  escaped = false;
  word_started = true;
  skip = 0;
}

loop-single_other :
    (c : ℕ) (r : List Text) (cur rest : Text)
    → (c == b'\'') ≡ false
    → tokenize_loop (inside b'\'' r cur) (c ∷ rest)
      ≡ tokenize_loop (inside b'\'' r (cur ++ c ∷ [])) rest
unfolding tokenize_loop tokenize_step
loop-single_other c r cur rest h = ground arith

loop-single_quote :
    (r : List Text) (cur rest : Text)
    → tokenize_loop (inside b'\'' r cur) (b'\'' ∷ b'\\' ∷ b'\'' ∷ b'\'' ∷ rest)
      ≡ tokenize_loop (inside b'\'' r (cur ++ b'\'' ∷ [])) rest
unfolding tokenize_loop tokenize_step compound_operator
loop-single_quote r cur rest = refl

loop-escape_single :
    (w rest : Text) (r : List Text) (cur : Text)
    → tokenize_loop (inside b'\'' r cur) (escape_single w ++ rest)
      ≡ tokenize_loop (inside b'\'' r (cur ++ w)) rest
unfolding escape_single
loop-escape_single [] rest r cur = rw append-nil
loop-escape_single (c ∷ w) rest r cur = elim (Bool-cases (c == b'\'')) [
  | inl e ↦
      rw (e, (==_iff c b'\'').0 e)
        (loop-single_quote r cur (escape_single w ++ rest)
          ∙ loop-escape_single w rest r (cur ++ b'\'' ∷ [])
          ∙ rw append_assoc)
  | inr e ↦ rw e (
      loop-single_other c r cur (escape_single w ++ rest) e
      ∙ loop-escape_single w rest r (cur ++ c ∷ [])
      ∙ rw append_assoc)
]

abbrev is_special : ℕ → Bool
is_special c = c == b'\\' || c == b'"' || c == b'$' || c == b'`'

loop-double_other :
    (c : ℕ) (r : List Text) (cur rest : Text)
    → is_special c ≡ false
    → tokenize_loop (inside b'"' r cur) (c ∷ rest)
      ≡ tokenize_loop (inside b'"' r (cur ++ c ∷ [])) rest
unfolding tokenize_loop tokenize_step
loop-double_other c r cur rest h = ground arith

loop-double_escaped :
    (c : ℕ) (r : List Text) (cur rest : Text)
    → tokenize_loop (inside b'"' r cur) (b'\\' ∷ c ∷ rest)
      ≡ tokenize_loop (inside b'"' r (cur ++ c ∷ [])) rest
unfolding tokenize_loop tokenize_step
loop-double_escaped c r cur rest = refl

loop-escape_double :
    (w rest : Text) (r : List Text) (cur : Text)
    → tokenize_loop (inside b'"' r cur) (escape_double w ++ rest)
      ≡ tokenize_loop (inside b'"' r (cur ++ w)) rest
unfolding escape_double
loop-escape_double [] rest r cur = rw append-nil
loop-escape_double (c ∷ w) rest r cur = elim (Bool-cases (is_special c)) [
  | inl e ↦ rw e (
      loop-double_escaped c r cur (escape_double w ++ rest)
      ∙ loop-escape_double w rest r (cur ++ c ∷ [])
      ∙ rw append_assoc)
  | inr e ↦ rw e (
      loop-double_other c r cur (escape_double w ++ rest) e
      ∙ loop-escape_double w rest r (cur ++ c ∷ [])
      ∙ rw append_assoc)
]

-- Between two words, and behind the end of a word that is not closed yet.
abbrev pub between : List Text → Scanner
between result = record scanner { result = result }

abbrev pub in_word : List Text → Text → Scanner
in_word result current = record scanner { result = result; current = current; word_started = true }

abbrev pub IsWrapped : Text → Type 0
IsWrapped raw = (wrapped_in b'\'' raw ≡ true) ⊎ (wrapped_in b'"' raw ≡ true)

single_reads_back :
    (w rest : Text) (r : List Text)
    → tokenize_loop (between r) (b'\'' ∷ (escape_single w ++ b'\'' ∷ rest))
      ≡ tokenize_loop (in_word r w) rest
unfolding tokenize_loop tokenize_step compound_operator
single_reads_back w rest r = loop-escape_single w (b'\'' ∷ rest) r []

double_reads_back :
    (w rest : Text) (r : List Text)
    → tokenize_loop (between r) (b'"' ∷ (escape_double w ++ b'"' ∷ rest))
      ≡ tokenize_loop (in_word r w) rest
unfolding tokenize_loop tokenize_step compound_operator
double_reads_back w rest r = loop-escape_double w (b'"' ∷ rest) r []

-- Where the token that is replaced was quoted, the tokenizer that stands between two words reads
-- the quoted replacement as exactly the replacement, whatever characters it holds and whatever follows.
pub tokenize_loop-quoted_replacement :
    (raw w rest : Text) (r : List Text)
    → IsWrapped raw
    → tokenize_loop (between r) (quoted_replacement raw w ++ rest)
      ≡ tokenize_loop (in_word r w) rest
unfolding quoted_replacement
tokenize_loop-quoted_replacement raw w rest r h = elim (Bool-cases (wrapped_in b'\'' raw)) [
  | inl e ↦ rw (e, append_assoc) (single_reads_back w rest r)
  | inr e ↦
      let d : wrapped_in b'"' raw ≡ true = ground arith in
      rw (e, d, append_assoc) (double_reads_back w rest r)
]
