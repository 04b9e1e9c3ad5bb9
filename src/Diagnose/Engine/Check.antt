-- ===== src/Diagnose/Engine/Check.antt =====
-- CheckShellContext of internal/diagnose/engine.go.
pub mod Guarantees
use solomon.Prelude.{
  Bool, true, false, ◌||◌, List, [], ltb, if◌then◌else◌, Result, ok, err, Text, equal, byte_len,
}
use solomon.Config.Defs.{Config, is_mode_off}
use solomon.Config.Exceptions.{has_rule_exception}
use solomon.Diagnose.Commands.{has_unsupported_shell_syntax}
use solomon.Diagnose.Tokens.{TokenError, incomplete_shell_input}
use solomon.Diagnose.Shells.{tokenize_for_shell}
use solomon.Diagnose.Decision.{Decision, no_decision}
use solomon.Diagnose.Engine.Values.{
  EngineError, cancelled_error, input_limit, analysis_limit, Stage, on_entry, tokenized, at_end,
  Limits, World,
}
use solomon.Diagnose.Engine.Modes.{finish}
use solomon.Diagnose.Engine.Repairs.{command_decision, semantic_decision, no_words}
use solomon.Diagnose.Engine.Paths.{path_decision}

-- `if decision, err := f(); err != nil { return err } else if decision.Suggestion != "" { … }`
unfoldable pub attempt :
    Result EngineError Decision
    → (Decision → Result EngineError Decision)
    → Result EngineError Decision
    → Result EngineError Decision
attempt (err e) finally next = err e
attempt (ok d) finally next = if equal d.suggestion [] then next else finally d

abbrev pub is_incomplete : TokenError → Bool
is_incomplete incomplete_shell_input = true
is_incomplete _ = false

module _ (world : World) (config : Config) (limits : Limits) where
  unfoldable pub check_end : Result EngineError Decision
  check_end =
      if world.cancelled at_end
      then err cancelled_error
      else if ltb limits.analysis_time world.elapsed
      then err analysis_limit
      else ok no_decision

  -- The three analyses of the words, in turn.
  unfoldable pub check_words : Text → Text → Stage → List Text → Result EngineError Decision
  check_words shell_name line stage words =
      let finally = λ (d : Decision). finish world config d shell_name line stage limits in
      attempt (command_decision world words) finally (
        attempt (semantic_decision world shell_name words) finally
          (attempt (path_decision world words) finally check_end))

  unfoldable pub check_tokens :
      Text → Text → Stage → Result TokenError (List Text) → Result EngineError Decision
  check_tokens shell_name line stage (err e) =
      ok (record no_decision { incomplete = is_incomplete e })
  check_tokens shell_name line stage (ok words) =
      if world.cancelled tokenized
      then err cancelled_error
      else if no_words words || is_mode_off config.mode
      then ok no_decision
      else if has_unsupported_shell_syntax words
      then ok no_decision
      else check_words shell_name line stage words

  -- CheckShellContext, under the limits with their defaults put in
  unfoldable pub check_shell : Text → Text → Stage → Result EngineError Decision
  check_shell shell_name line stage =
      if world.cancelled on_entry
      then err cancelled_error
      else if ltb limits.input_bytes (byte_len line)
      then err input_limit
      else if has_rule_exception config line
      then ok no_decision
      else check_tokens shell_name line stage (tokenize_for_shell shell_name line)
