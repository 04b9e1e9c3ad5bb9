-- ===== src/Diagnose/Diff/Shown.antt =====
-- When a change is shown, and that both ways to show it agree.
use solomon.Prelude.{
  ℕ, ◌+◌, ◌≡◌, refl, sym, ◌∙◌, inl, inr, Bool, true, false, not, ◌&&◌, ◌||◌, Option, none, some,
  List, [], ◌∷◌, ◌++◌, arith, ltb, ◌==◌, if◌then◌else◌, Bool-cases, Text, equal, equal_refl,
}
use solomon.Redact.{Patterns}
use solomon.Diagnose.Tokens.{tokenize}
use solomon.Diagnose.Replace.{
  TokenRange, shell_token_ranges, replace_in, replace_token_occurrence, slice_to,
}
use solomon.Diagnose.Decision.{Decision}
use solomon.Diagnose.Diff.{
  is_high, words_shown, may_show, diff_of, command_diff, emphasize_in, command_diff_emphasis,
}

abbrev pub is_none : Option Text → Bool
is_none none = true
is_none (some t) = false

not_empty : (before : Text) (c : ℕ) (after : Text) → equal (before ++ c ∷ after) [] ≡ false
unfolding equal
not_empty [] c after = refl
not_empty (b ∷ before) c after = refl

diff_of-is_none : (line : Text) (o : Option Text) → equal (diff_of line o) [] ≡ is_none o
unfolding equal
diff_of-is_none line none = refl
diff_of-is_none line (some corrected) = refl

emphasize_in-replace_in :
    (line original replacement : Text) (occurrence matched : ℕ) (tokens : List TokenRange)
    → equal (emphasize_in line original replacement occurrence matched tokens) []
      ≡ is_none (replace_in line original replacement occurrence matched tokens)
unfolding emphasize_in replace_in
emphasize_in-replace_in line original replacement occurrence matched [] = equal_refl []
emphasize_in-replace_in line original replacement occurrence matched (token ∷ tokens) =
    let skipped = emphasize_in-replace_in line original replacement occurrence matched tokens in
    let later = emphasize_in-replace_in line original replacement occurrence (matched + 1) tokens in
    elim (Bool-cases (equal token.value original)) [
      | inr other ↦ rw other skipped
      | inl same ↦ elim (Bool-cases (matched + 1 == occurrence)) [
        | inr not_yet ↦ rw (same, not_yet) later
        | inl here ↦ rw (same, here) (not_empty (slice_to token.start line) b'[' _)
      ]
    ]

agree :
    (may : Bool) (line : Text) (o : Option Text) (emphasis : Text)
    → equal emphasis [] ≡ is_none o
    → (equal (if not may then [] else diff_of line o) []
        ≡ equal (if not may then [] else emphasis) [])
      × (equal (if not may then [] else diff_of line o) [] ≡ (not may || is_none o))
agree false line o emphasis e = (refl, equal_refl [])
agree true line o emphasis e = (diff_of-is_none line o ∙ sym e, diff_of-is_none line o)

hidden :
    (risky a b c shows nothing : Bool)
    → ((not (risky || a || b || c) && shows) ≡ false → nothing ≡ true)
    → (not nothing && (risky || not shows)) ≡ false
hidden true a b c shows nothing h = ground (arith, h)
hidden false a b c false nothing h = ground (arith, h)
hidden false a b c true nothing h = ground arith

-- The two ways to show a change show one for the same lines: those for which the named occurrence
-- is found. For a repair of high risk, and for a line with a secret, both show nothing.
pub command_diff-command_diff_emphasis :
    (patterns : Patterns) (d : Decision) (line : Text)
    → (equal (command_diff patterns d line) [] ≡ equal (command_diff_emphasis patterns d line) [])
      × (equal (command_diff patterns d line) [] ≡ (
          not (may_show patterns d line)
          || is_none (replace_token_occurrence line d.original d.replacement d.occurrence)))
      × ((not (equal (command_diff patterns d line) [])
            && (is_high d.risk || not (words_shown patterns (tokenize line))))
          ≡ false)
unfolding command_diff command_diff_emphasis replace_token_occurrence
command_diff-command_diff_emphasis patterns d line =
    let (same, exactly) =
      agree (may_show patterns d line) line
        (replace_token_occurrence line d.original d.replacement d.occurrence)
        (emphasize_in line d.original d.replacement d.occurrence 0 (shell_token_ranges line))
        (emphasize_in-replace_in line d.original d.replacement d.occurrence 0
          (shell_token_ranges line)) in
    (
      same,
      exactly,
      hidden (is_high d.risk) (equal d.original []) (equal d.replacement []) (ltb d.occurrence 1)
          (words_shown patterns (tokenize line)) (equal (command_diff patterns d line) [])
          (λ (h : may_show patterns d line ≡ false). exactly ∙ rw h refl),
    )
