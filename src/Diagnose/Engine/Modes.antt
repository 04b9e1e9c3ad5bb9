-- ===== src/Diagnose/Engine/Modes.antt =====
-- applyMode, safeAutoApply, shouldInterrupt and finishDecision of internal/diagnose/engine.go.
pub mod Rewrites
use solomon.Prelude.{
  Bool, true, false, not, ◌&&◌, ◌||◌, Option, none, some, [], ltb, if◌then◌else◌, Result, ok, err,
  all, Text, codes, equal,
}
use solomon.Config.Defs.{Config, is_mode_interrupt, is_mode_rewrite}
use solomon.Diagnose.Rank.{semantic_class, at_least, meets_confidence_threshold}
use solomon.Diagnose.Risk.{Risk, safe}
use solomon.Diagnose.Shells.{rewrite_compatible}
use solomon.Diagnose.Replace.{replace_token_occurrence}
use solomon.Diagnose.Decision.{
  Action, hint_action, interrupt_action, rewrite_action, Evidence, Decision, no_decision,
  decision_output_size,
}
use solomon.Diagnose.Engine.Values.{
  EngineError, cancelled_error, output_limit, analysis_limit, Stage, pre, post, on_finish, Limits,
  World, limits,
}

abbrev no_source : Evidence → Bool
no_source e = not (equal e.kind (codes "source") && equal e.value (codes "installed"))

unfoldable pub semantic_rewrite_allowed : Decision → Bool
semantic_rewrite_allowed d = elim d.class [ semantic_class ↦ all no_source d.evidence | _ ↦ true ]

abbrev pub is_safe : Risk → Bool
is_safe safe = true
is_safe _ = false

unfoldable pub intrinsic_rewrite_eligible : Decision → Bool
intrinsic_rewrite_eligible d =
    not (equal d.suggestion [])
    && not d.incomplete
    && is_safe d.risk
    && at_least d.confidence 80
    && meets_confidence_threshold d.class d.confidence
    && semantic_rewrite_allowed d

abbrev pub is_pre : Stage → Bool
is_pre pre = true
is_pre post = false

module _ (config : Config) where
  unfoldable pub safe_auto_apply : Decision → Bool
  safe_auto_apply d =
      is_mode_rewrite config.mode && config.auto_apply_safe && intrinsic_rewrite_eligible d

  unfoldable pub should_interrupt : Decision → Stage → Bool
  should_interrupt d stage =
      is_pre stage
      && (is_mode_interrupt config.mode || is_mode_rewrite config.mode && config.risk_interrupt)
      && not (equal d.suggestion [])
      && not d.incomplete
      && at_least d.confidence 90
      && meets_confidence_threshold d.class d.confidence

  -- applyMode, with evaluateRewriteBuffer in its first branch
  unfoldable pub apply_mode : Decision → Stage → Decision
  apply_mode d stage =
      let marked = record d { rewrite_eligible = intrinsic_rewrite_eligible d } in
      if is_pre stage && safe_auto_apply marked
      then record marked { action = rewrite_action }
      else if should_interrupt marked stage
      then record marked { action = interrupt_action }
      else record marked { action = hint_action }

abbrev pub is_rewrite : Action → Bool
is_rewrite rewrite_action = true
is_rewrite _ = false

-- A rewrite that the line's quoting does not allow becomes a hint.
unfoldable pub downgrade : Text → Text → Decision → Decision
downgrade shell_name line d =
    if is_rewrite d.action && not (rewrite_compatible shell_name line)
    then record d { action = hint_action }
    else d

-- The buffer that a rewrite puts in the place of the line.
abbrev pub with_buffer : Option Text → Decision → Limits → Result EngineError Decision
with_buffer none d limits = ok no_decision
with_buffer (some buffer) d limits =
    let rewritten = record d { suggestion = buffer } in
    if ltb limits.output_bytes (decision_output_size rewritten)
    then err output_limit
    else ok rewritten

unfoldable pub fill_buffer : Text → Decision → Limits → Result EngineError Decision
fill_buffer line d limits =
    if is_rewrite d.action && not (equal d.original []) && not (equal d.replacement [])
    then with_buffer (replace_token_occurrence line d.original d.replacement d.occurrence) d limits
    else ok d

module _ (world : World) (config : Config) where
  unfoldable pub finish : Decision → Text → Text → Stage → Limits → Result EngineError Decision
  finish d shell_name line stage limits =
      if world.cancelled on_finish
      then err cancelled_error
      else if ltb limits.analysis_time world.elapsed
      then err analysis_limit
      else if ltb limits.output_bytes (decision_output_size d)
      then err output_limit
      else fill_buffer line (downgrade shell_name line (apply_mode config d stage)) limits
