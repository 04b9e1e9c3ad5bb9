-- ===== src/Daemon/Learning.antt =====
-- Learning of internal/daemon/service.go: the failures that wait for their correction, and the
-- decisions on learned rules. The store of internal/localstate is not here: an observation that
-- is handed to it is the result of `record_success`.
pub mod Ceiling
use solomon.Prelude.{
  ℕ, ◌+◌, ◌-◌, Bool, false, not, ◌||◌, Option, none, some, List, [], ◌∷◌, ◌++◌, ltb, leb, ◌==◌,
  if◌then◌else◌, Text, codes, equal, fields, width, byte_len,
}
use solomon.Config.Defs.{
  Config, LearnedAction, off_action, hint_action, rewrite_action, other_action,
}
use solomon.Redact.{Patterns}
use solomon.Redact
use solomon.Diagnose.Decision.{itoa}
use solomon.Daemon.Tables.{Table, find, keep, delete, put}
use solomon.Daemon.Protocol.{Request, Response, bare}
use solomon.Daemon.Protocol

pub record Failure : Type 0 where
  pub command : Text
  pub output : Text
  pub created : ℕ

pub record LearnedRule : Type 0 where
  pub id : ℕ
  pub failure : Text
  pub correction : Text
  pub action : LearnedAction
  pub enabled : Bool

pub record Observation : Type 0 where
  pub session : Text
  pub failed_command : Text
  pub corrected_command : Text
  pub failure_output : Text
  pub created_at : ℕ

abbrev pub max_failure_output_bytes : ℕ
max_failure_output_bytes = 8192

-- Five minutes, in nanoseconds.
abbrev pub learning_pair_window : ℕ
learning_pair_window = 300000000000

-- output[:limit]; of a character that the cut goes through, no byte is kept here.
cut_bytes : ℕ → Text → Text
cut_bytes limit [] = []
cut_bytes limit (c ∷ cs) =
    let rest = cut_bytes (limit - width c) cs in if leb (width c) limit then c ∷ rest else []

unfoldable pub failure_key : Text → Text → Text
failure_key session token = session ++ (0 ∷ token)

unfoldable pub remove_expired_failures : ℕ → Table Failure → Table Failure
remove_expired_failures now =
    keep (λ key pending. not (ltb (pending.created + learning_pair_window) now))

unfoldable pub limited_learned_action : LearnedAction → LearnedAction → LearnedAction
limited_learned_action (other_action value) ceiling = off_action
limited_learned_action action (other_action value) = off_action
limited_learned_action off_action ceiling = off_action
limited_learned_action action off_action = off_action
limited_learned_action hint_action ceiling = hint_action
limited_learned_action action hint_action = hint_action
limited_learned_action rewrite_action rewrite_action = rewrite_action

module _ (patterns : Patterns) where
  unfoldable pub safe_failure_output : Text → Text
  unfolding cut_bytes
  safe_failure_output output =
      let (redacted, changed) = Redact.text patterns output in
      if ltb max_failure_output_bytes (byte_len redacted)
      then cut_bytes max_failure_output_bytes redacted
      else redacted

  -- The redacted command, and whether there is one without a secret.
  abbrev pub words_normalized : List Text → Text × Bool
  words_normalized [] = ([], false)
  words_normalized (word ∷ words) =
      let (value, has_secret) = Redact.command patterns (word ∷ words) in (value, not has_secret)

  unfoldable pub normalized_learning_command : Text → Text × Bool
  normalized_learning_command command =
      if byte_len command == 0 || ltb 8192 (byte_len command)
      then ([], false)
      else words_normalized (fields command)

  module _ (config : Config) (has_store : Bool) where
    unfoldable pub remember_failure : Request → ℕ → Table Failure → Table Failure
    remember_failure r now failures =
        if not config.local_learning_enabled || not has_store || equal r.session []
        then failures
        else let (command, usable) = normalized_learning_command r.command in
          if not usable
          then failures
          else put (remove_expired_failures now failures) (failure_key r.session r.token) (record {
            command = command;
            output = safe_failure_output r.failure_output;
            created = now;
          })

    -- The failure that a success answers is taken out; with another command it is an observation.
    abbrev pub paired : Request → Text → ℕ → Option Failure → Option Observation
    paired r correction now none = none
    paired r correction now (some pending) =
        if equal pending.command correction
        then none
        else some (record {
          session = r.session;
          failed_command = pending.command;
          corrected_command = correction;
          failure_output = pending.output;
          created_at = now;
        })

    unfoldable pub record_success : Request → ℕ → Table Failure → Table Failure × Option Observation
    record_success r now failures =
        if not config.local_learning_enabled || not has_store || equal r.session []
        then (failures, none)
        else let (correction, usable) = normalized_learning_command r.command in
          if not usable
          then (failures, none)
          else let live = remove_expired_failures now failures in
            let key = failure_key r.session r.token in
            (delete live key, paired r correction now (find live key))

  -- The first enabled rule for the failure decides.
  abbrev pub response_to : LearnedAction → LearnedRule → Option Response
  response_to off_action rule = none
  response_to action rule = some (record (bare (action_of action)) {
    suggestion = rule.correction;
    explanation = codes "local learned repair";
    confidence = codes "high";
    risk = codes "safe";
    source = codes "learned";
    rule_id = itoa rule.id;
  })
    where
      action_of : LearnedAction → Protocol.Action
      action_of rewrite_action = Protocol.rewrite_action
      action_of _ = Protocol.hint_action

  unfoldable pub first_rule : LearnedAction → Text → List LearnedRule → Option Response
  first_rule ceiling failure [] = none
  first_rule ceiling failure (rule ∷ rules) =
      let rest = first_rule ceiling failure rules in
      if not rule.enabled || not (equal rule.failure failure)
      then rest
      else response_to (limited_learned_action rule.action ceiling) rule

  -- learnedDecision, of the stage "pre"
  unfoldable pub learned_decision : Config → List LearnedRule → Text → Option Response
  unfolding first_rule
  learned_decision config rules command =
      if not config.local_learning_enabled
      then none
      else let (failure, usable) = normalized_learning_command command in
        if not usable then none else first_rule config.learned_rule_action_ceiling failure rules
