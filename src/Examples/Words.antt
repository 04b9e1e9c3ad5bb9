-- ===== src/Examples/Words.antt =====
-- The analyses of words and lines on concrete inputs.
use solomon.Prelude.{
  ◌≡◌, refl, true, false, ◌&&◌, some, List, [], ◌∷◌, arith, get_elem?, Text, codes, equal, elem,
  text_lt, has_prefix, has_suffix, contains_rune, contains_any, lower_rune, to_lower, to_upper,
  is_space, is_control, trim_space, cut_at, split_at, fields, join_with, width, byte_len, insert,
  sort, trim_left_space, upper_rune, trim_left_space,
}
use solomon.Redact.{no_patterns, secret_flag, redact_words, command, contains_secret, replacement}
use solomon.Redact.Words.{redact_words-secret_flag}
use solomon.Diagnose.Distance.{damerau_levenshtein}
use solomon.Diagnose.Distance.Equivalence.{osa, damerau_levenshtein-osa}
use solomon.Diagnose.Commands.{keeps_position}

abbrev typo : Text
typo = codes "gti"

abbrev meant : Text
meant = codes "git"

damerau_levenshtein-osa_example :
    damerau_levenshtein (codes "gti") (codes "git") ≡ osa (codes "itg") (codes "tig")
damerau_levenshtein-osa_example = damerau_levenshtein-osa typo meant

abbrev line : Text
line = codes "gti add 'a b' && gti push"

abbrev listing : List Text
listing = codes "ls" ∷ codes "|" ∷ codes "head" ∷ codes "-n" ∷ codes "1" ∷ []

abbrev unquoted : Text
unquoted = codes "git comit  -a"

abbrev login : List Text
login = codes "gh" ∷ codes "--token" ∷ codes "abc" ∷ []

token_flag : secret_flag (codes "--token") ≡ true
unfolding solomon.Prelude.insert solomon.Prelude.sort solomon.Prelude.equal solomon.Prelude.elem
    solomon.Prelude.text_lt solomon.Prelude.has_prefix solomon.Prelude.has_suffix
    solomon.Prelude.contains_rune solomon.Prelude.contains_any solomon.Prelude.lower_rune
    solomon.Prelude.upper_rune solomon.Prelude.to_lower solomon.Prelude.to_upper
    solomon.Prelude.is_space solomon.Prelude.is_control solomon.Prelude.trim_left_space
    solomon.Prelude.trim_space solomon.Prelude.cut_at solomon.Prelude.split_at
    solomon.Prelude.fields solomon.Prelude.join_with solomon.Prelude.width solomon.Prelude.byte_len
    solomon.Redact.secret_name solomon.Redact.secret_flag solomon.Redact.secret_assignment_in
    solomon.Redact.text solomon.Redact.word_value solomon.Redact.redact_words solomon.Redact.command
    solomon.Redact.contains_secret
token_flag = refl

redact_words-secret_flag_example :
    (get_elem? (redact_words no_patterns [] false login).0 2 ≡ some replacement)
    × ((redact_words no_patterns [] false login).1 ≡ true)
redact_words-secret_flag_example =
    redact_words-secret_flag no_patterns login 1 [] false (codes "--token") refl token_flag
      (omega arith)
