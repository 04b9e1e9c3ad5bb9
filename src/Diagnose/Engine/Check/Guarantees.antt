-- ===== src/Diagnose/Engine/Check/Guarantees.antt =====
-- What CheckShellContext promises of the decision it returns.
use solomon.Prelude.{
  ◌≤◌, ◌≡◌, sym, ◌⊎◌, inl, inr, Bool, true, false, ◌||◌, some, List, [], arith, Bool-cases, Result,
  ok, err, Text, equal,
}
use solomon.Config.Defs.{Config, is_mode_off}
use solomon.Config.Exceptions.{has_rule_exception}
use solomon.Diagnose.Tokens.{TokenError}
use solomon.Diagnose.Replace.{replace_token_occurrence}
use solomon.Diagnose.Shells.{tokenize_for_shell}
use solomon.Diagnose.Decision.{no_action, Decision, no_decision, decision_output_size}
use solomon.Diagnose.Engine.Values.{EngineError, Stage, Limits, World}
use solomon.Diagnose.Engine.Modes.{is_rewrite, finish}
use solomon.Diagnose.Engine.Modes.Rewrites.{
  MayRewrite, MayInterrupt, is_interrupt, finish-MayRewrite, finish-MayInterrupt, finish_size,
  names_words, finish-buffer_of,
}
use solomon.Diagnose.Engine.Repairs.{command_decision, semantic_decision}
use solomon.Diagnose.Engine.Paths.{path_decision}
use solomon.Diagnose.Engine.Check.{
  attempt, is_incomplete, check_end, check_words, check_tokens, check_shell,
}

-- Nothing is suggested, and no action is taken.
abbrev pub IsSilent : Decision → Type 0
IsSilent d = (d.suggestion ≡ []) × (d.action ≡ no_action)

no_decision-IsSilent :
    (d : Decision) (b : Bool) → d ≡ record no_decision { incomplete = b } → IsSilent d
no_decision-IsSilent d b e = (cc, cc)

-- How a decision came about: nothing was suggested, or a suggestion was finished.
pub data Source (world : World) (config : Config) (l : Limits) (shell_name line : Text)
    (stage : Stage) : Decision → Type 0 where
  silent :
      (r : Decision) (b : Bool)
      → r ≡ record no_decision { incomplete = b }
      → Source world config l shell_name line stage r
  finished :
      (d r : Decision)
      → finish world config d shell_name line stage l ≡ ok r
      → Source world config l shell_name line stage r

module _ (world : World) (config : Config) (l : Limits) (shell_name line : Text) (stage : Stage)
    (r : Decision) where
  attempt-Source :
      (m next : Result EngineError Decision)
      → (next ≡ ok r → Source world config l shell_name line stage r)
      → attempt m (λ d. finish world config d shell_name line stage l) next ≡ ok r
      → Source world config l shell_name line stage r
  unfolding attempt
  attempt-Source (err e) next rest h = cc
  attempt-Source (ok d) next rest h = elim (Bool-cases (equal d.suggestion [])) [
    | inl empty ↦ rest (cc)
    | inr some_text ↦ finished d r (cc)
  ]

  check_end-Source : check_end world config l ≡ ok r → Source world config l shell_name line stage r
  unfolding check_end
  check_end-Source h = silent r false (ground arith)

  check_words-Source :
      (words : List Text)
      → check_words world config l shell_name line stage words ≡ ok r
      → Source world config l shell_name line stage r
  unfolding check_words
  check_words-Source words = attempt-Source (command_decision world words) _ (
      attempt-Source (semantic_decision world shell_name words) _
        (attempt-Source (path_decision world words) _ check_end-Source))

  check_tokens-Source :
      (tokens : Result TokenError (List Text))
      → check_tokens world config l shell_name line stage tokens ≡ ok r
      → Source world config l shell_name line stage r
  unfolding check_tokens
  check_tokens-Source (err e) h = silent r (is_incomplete e) (cc)
  check_tokens-Source (ok words) h =
      let reached : (check_words world config l shell_name line stage words ≡ ok r)
          ⊎ (no_decision ≡ r) =
        ground arith in
      elim reached [
        | inl words_ok ↦ check_words-Source words words_ok
        | inr same ↦ silent r false (sym same)
      ]

  check_shell-Source :
      check_shell world config l shell_name line stage ≡ ok r
      → Source world config l shell_name line stage r
  unfolding check_shell
  check_shell-Source h =
      let reached : (check_tokens world config l shell_name line stage
              (tokenize_for_shell shell_name line)
            ≡ ok r)
          ⊎ (no_decision ≡ r) =
        ground arith in
      elim reached [
        | inl tokens_ok ↦ check_tokens-Source (tokenize_for_shell shell_name line) tokens_ok
        | inr same ↦ silent r false (sym same)
      ]

-- A decision to rewrite the buffer is made only in rewrite mode with auto_apply_safe, before the
-- submission, for a complete repair of safe risk and confidence 0.80 or more that no installed
-- pack suggested, on a line whose quoting allows it.
pub check_shell-MayRewrite :
    (world : World) (config : Config) (l : Limits) (shell_name line : Text) (stage : Stage)
    (r : Decision)
    → check_shell world config l shell_name line stage ≡ ok r
    → is_rewrite r.action ≡ true
    → MayRewrite config shell_name line stage r
check_shell-MayRewrite world config l shell_name line stage r h rewrites =
    elim (check_shell-Source world config l shell_name line stage r h) [
      | silent r b e ↦ cc
      | finished d r e ↦ finish-MayRewrite world config shell_name line stage l d r e rewrites
    ]

-- Where a rewrite names the word that it replaces and the replacement, the new buffer is the
-- line in which the word is replaced at its occurrence.
pub check_shell-replace_token_occurrence :
    (world : World) (config : Config) (l : Limits) (shell_name line : Text) (stage : Stage)
    (r : Decision)
    → check_shell world config l shell_name line stage ≡ ok r
    → is_rewrite r.action ≡ true
    → names_words r ≡ true
    → replace_token_occurrence line r.original r.replacement r.occurrence ≡ some r.suggestion
check_shell-replace_token_occurrence world config l shell_name line stage r h rewrites words =
    elim (check_shell-Source world config l shell_name line stage r h) [
      | silent r b e ↦ cc
      | finished d r e ↦ finish-buffer_of world config shell_name line stage l d r e rewrites words
    ]

-- A decision to interrupt is made only before the submission, in interrupt mode or in rewrite
-- mode with risk_interrupt, for a complete repair of confidence 0.90 or more that meets its
-- class's threshold.
pub check_shell-MayInterrupt :
    (world : World) (config : Config) (l : Limits) (shell_name line : Text) (stage : Stage)
    (r : Decision)
    → check_shell world config l shell_name line stage ≡ ok r
    → is_interrupt r.action ≡ true
    → MayInterrupt config stage r
check_shell-MayInterrupt world config l shell_name line stage r h interrupts =
    elim (check_shell-Source world config l shell_name line stage r h) [
      | silent r b e ↦ cc
      | finished d r e ↦ finish-MayInterrupt world config shell_name line stage l d r e interrupts
    ]

-- A decision that suggests anything is within the limit of the output.
pub check_shell_size :
    (world : World) (config : Config) (l : Limits) (shell_name line : Text) (stage : Stage)
    (r : Decision)
    → check_shell world config l shell_name line stage ≡ ok r
    → equal r.suggestion [] ≡ false
    → decision_output_size r ≤ l.output_bytes
unfolding equal
check_shell_size world config l shell_name line stage r h suggests =
    elim (check_shell-Source world config l shell_name line stage r h) [
      | silent r b e ↦ let (empty, still) = no_decision-IsSilent r b e in absurd (cc)
      | finished d r e ↦ elim (finish_size world config shell_name line stage l d r e) [
        | inl nothing ↦ let (empty, still) = no_decision-IsSilent r false nothing in absurd (cc)
        | inr small ↦ small
      ]
    ]

module _ (world : World) (config : Config) (l : Limits) (shell_name line : Text) (stage : Stage)
    (r : Decision) where
  check_tokens-off :
      (tokens : Result TokenError (List Text))
      → check_tokens world config l shell_name line stage tokens ≡ ok r
      → is_mode_off config.mode ≡ true
      → IsSilent r
  unfolding check_tokens
  check_tokens-off (err e) h off = no_decision-IsSilent r (is_incomplete e) (cc)
  check_tokens-off (ok words) h off = no_decision-IsSilent r false (ground arith)

-- In mode off, and on a line that a rule exception names, a check that returns a decision
-- suggests nothing and takes no action.
pub check_shell-IsSilent :
    (world : World) (config : Config) (l : Limits) (shell_name line : Text) (stage : Stage)
    (r : Decision)
    → check_shell world config l shell_name line stage ≡ ok r
    → (is_mode_off config.mode || has_rule_exception config line) ≡ true
    → IsSilent r
unfolding check_shell
check_shell-IsSilent world config l shell_name line stage r h off =
    elim (Bool-cases (has_rule_exception config line)) [
      | inl excepted ↦ no_decision-IsSilent r false (ground arith)
      | inr not_excepted ↦
          check_tokens-off world config l shell_name line stage r
            (tokenize_for_shell shell_name line) (ground arith) (ground arith)
    ]
