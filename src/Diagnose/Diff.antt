-- ===== src/Diagnose/Diff.antt =====
-- CommandDiff and CommandDiffEmphasis of internal/diagnose/engine.go.
pub mod Shown
use solomon.Prelude.{
  ℕ, ◌+◌, ◌-◌, Bool, true, false, not, ◌&&◌, ◌||◌, Option, none, some, List, [], ◌∷◌, ◌++◌, ltb,
  ◌==◌, if◌then◌else◌, Result, ok, err, Text, codes, equal,
}
use solomon.Redact
use solomon.Redact.{Patterns}
use solomon.Diagnose.Risk.{Risk, high}
use solomon.Diagnose.Tokens.{TokenError, tokenize}
use solomon.Diagnose.Replace.{
  TokenRange, shell_token_ranges, slice_to, slice_from, quoted_replacement,
  replace_token_occurrence,
}
use solomon.Diagnose.Decision.{Decision}

abbrev pub is_high : Risk → Bool
is_high high = true
is_high risk = false

-- Do the words hold no secret?
abbrev pub words_shown : Patterns → Result TokenError (List Text) → Bool
words_shown patterns (err e) = false
words_shown patterns (ok words) = not (Redact.command patterns words).1

-- The tests with which both functions begin.
unfoldable pub may_show : Patterns → Decision → Text → Bool
may_show patterns d line =
    not (is_high d.risk || equal d.original [] || equal d.replacement [] || ltb d.occurrence 1)
    && words_shown patterns (tokenize line)

abbrev pub diff_of : Text → Option Text → Text
diff_of line none = []
diff_of line (some corrected) = codes "- " ++ (line ++ (codes "\n+ " ++ corrected))

unfoldable pub command_diff : Patterns → Decision → Text → Text
unfolding may_show
command_diff patterns d line =
    if not (may_show patterns d line)
    then []
    else diff_of line (replace_token_occurrence line d.original d.replacement d.occurrence)

abbrev pub emphasized : Text → TokenRange → Text → Text
emphasized line token replacement =
    let raw = slice_from token.start (slice_to token.end line) in
    slice_to token.start line
    ++ (codes "[-"
        ++ (raw
            ++ (codes "-]{+"
                ++ (quoted_replacement raw replacement
                    ++ (codes "+}" ++ slice_from token.end line)))))

-- The loop over the ranges; `matched` counts those with the original's value.
unfoldable pub emphasize_in : Text → Text → Text → ℕ → ℕ → List TokenRange → Text
emphasize_in line original replacement occurrence matched [] = []
emphasize_in line original replacement occurrence matched (token ∷ tokens) =
    let skipped = emphasize_in line original replacement occurrence matched tokens in
    let later = emphasize_in line original replacement occurrence (matched + 1) tokens in
    if not (equal token.value original)
    then skipped
    else if not (matched + 1 == occurrence)
    then later
    else emphasized line token replacement

unfoldable pub command_diff_emphasis : Patterns → Decision → Text → Text
unfolding may_show emphasize_in
command_diff_emphasis patterns d line =
    if not (may_show patterns d line)
    then []
    else emphasize_in line d.original d.replacement d.occurrence 0 (shell_token_ranges line)
