-- ===== src/Daemon/PreSend.antt =====
-- preSend of internal/daemon/service.go, with curatedDecision, decision and issueUndoToken.
pub mod Submit
pub mod Undecided
pub mod Confirmed
pub mod Curated
pub mod Asked
use solomon.Prelude.{
  Bool, true, false, not, ◌&&◌, ◌||◌, Option, none, some, [], if◌then◌else◌, Result, ok, err, Text,
  codes, equal, fields,
}
use solomon.Config.Defs.{is_mode_interrupt, is_mode_rewrite}
use solomon.Redact.{Patterns}
use solomon.Redact
use solomon.Diagnose.Decision.{Decision}
use solomon.Diagnose.Engine.Values.{EngineError, Stage, pre, post}
use solomon.Diagnose.Shells.{shell_command_supported}
use solomon.Daemon.Protocol.{
  Request, no_action, hint_action, interrupt_action, rewrite_action, submit_action, Response, bare,
}
use solomon.Daemon.Tokens.{consume_confirmation, store_confirmation, store_undo_token}
use solomon.Daemon.Learning.{learned_decision}
use solomon.Daemon.Service.{
  ServiceError, engine_failed, no_random, RuntimeMatch, consuming, storing, Setting, State, Outcome,
  response_of, is_interrupt, is_rewrite,
}

module _ (setting : Setting) where
  abbrev pub engine_response : Result EngineError Decision → Result ServiceError Response
  engine_response (err e) = err (engine_failed e)
  engine_response (ok d) = ok (response_of d)

  unfoldable pub decision : Text → Text → Stage → Result ServiceError Response
  decision shell_name command stage = engine_response (setting.check_shell shell_name command stage)

  -- A response that wants a confirmation: submitted if the session has just confirmed the command,
  -- otherwise the confirmation is stored under a new token.
  unfoldable pub ask_confirmation : State → Text → Text → Response → Outcome Response
  ask_confirmation state session command response =
      let (confirmations, confirmed) =
        consume_confirmation session command (setting.now consuming) state.confirmations in
      let after = record state { confirmations = confirmations } in
      if confirmed
      then (after, ok (record response { action = submit_action }))
      else elim setting.random_token [
        | none ↦ (after, err no_random)
        | some token ↦ (
          record after {
            confirmations =
                store_confirmation session command token (setting.now storing) confirmations;
          },
          ok (record response { action = interrupt_action; confirmation_token = token }),
        )
      ]

  abbrev pub interrupts : Bool
  interrupts =
      is_mode_interrupt setting.config.mode
      || is_mode_rewrite setting.config.mode && setting.config.risk_interrupt

  abbrev pub is_installed : RuntimeMatch → Bool
  is_installed match = equal match.source (codes "installed")

  -- The response to a match of the packs, before the mode is applied.
  unfoldable pub curated_response : RuntimeMatch → Response
  curated_response match =
      let (suggestion, has_secret) = Redact.command setting.patterns (fields match.suggestion) in
      let risk = if has_secret then codes "high" else match.risk in
      record (bare hint_action) {
        rewrite_eligible =
            not (is_installed match) && not (equal suggestion []) && equal risk (codes "safe");
        suggestion = suggestion;
        explanation = match.cause;
        confidence = codes "high";
        risk = risk;
        source = if is_installed match then codes "installed-pack" else codes "curated";
        pack_id = match.pack_id;
        rule_id = match.rule_id;
      }

  abbrev pub is_pre : Stage → Bool
  is_pre pre = true
  is_pre post = false

  abbrev pub found : Outcome Response → Outcome (Option Response)
  found (state, err e) = (state, err e)
  found (state, ok r) = (state, ok (some r))

  -- A high risk repair in an interrupting mode: without a session it stays a hint.
  unfoldable pub curated_risk : State → Text → Text → Response → Outcome (Option Response)
  curated_risk state command session r =
      let asked = found (ask_confirmation state session command r) in
      if equal session [] then (state, ok (some r)) else asked

  unfoldable pub curated_action : State → Text → Text → Stage → Response → Outcome (Option Response)
  curated_action state command session stage r =
      let asked = curated_risk state command session r in
      let rewrites =
        is_pre stage
        && r.rewrite_eligible
        && is_mode_rewrite setting.config.mode
        && setting.config.auto_apply_safe in
      if is_pre stage && equal r.risk (codes "high") && interrupts
      then asked
      else if rewrites
      then (state, ok (some (record r { action = rewrite_action })))
      else (state, ok (some r))

  abbrev pub curated_match :
      State
      → Text
      → Text
      → Text
      → Stage
      → Result ServiceError (Option RuntimeMatch)
      → Outcome (Option Response)
  curated_match state shell_name command session stage (err e) = (state, err e)
  curated_match state shell_name command session stage (ok none) = (state, ok none)
  curated_match state shell_name command session stage (ok (some match)) =
      if not (shell_command_supported shell_name match.suggestion)
      then (state, ok none)
      else curated_action state command session stage (curated_response match)

  unfoldable pub curated_decision : State → Text → Text → Text → Stage → Outcome (Option Response)
  curated_decision state shell_name command session stage =
      if not (shell_command_supported shell_name command)
      then (state, ok none)
      else curated_match state shell_name command session stage (setting.match_line command)

  -- The last step of preSend: an interruption in a session asks for a confirmation.
  unfoldable pub confirm_interrupt :
      State → Request → Result ServiceError Response → Outcome Response
  confirm_interrupt state r (err e) = (state, err e)
  confirm_interrupt state r (ok response) =
      let asked = ask_confirmation state r.session r.command response in
      if not (is_interrupt response.action) || equal r.session []
      then (state, ok response)
      else asked

  abbrev pub after_learned : State → Request → Option Response → Outcome Response
  after_learned state r (some response) = (state, ok response)
  after_learned state r none = confirm_interrupt state r (decision r.shell r.command pre)

  abbrev pub after_curated : Request → Outcome (Option Response) → Outcome Response
  after_curated r (state, err e) = (state, err e)
  after_curated r (state, ok (some response)) = (state, ok response)
  after_curated r (state, ok none) =
      after_learned state r
        (learned_decision setting.patterns setting.config setting.learned_rules r.command)

  unfoldable pub pre_send_response : State → Request → Outcome Response
  pre_send_response state r =
      if not (shell_command_supported r.shell r.command)
      then (state, ok (bare no_action))
      else after_curated r (curated_decision state r.shell r.command r.session pre)

  unfoldable pub issue_undo_token : Request → Outcome Response → Outcome Response
  issue_undo_token r (state, err e) = (state, err e)
  issue_undo_token r (state, ok response) =
      if not setting.config.undo_enabled
        || not (is_rewrite response.action)
        || equal r.session []
        || equal r.command []
      then (state, ok response)
      else elim setting.random_token [
        | none ↦ (state, ok response)
        | some token ↦ (
          record state {
            undos =
                store_undo_token setting.config.undo_ttl_seconds token r.session r.command
                  (setting.now storing) state.undos;
          },
          ok (record response { undo_token = token }),
        )
      ]
