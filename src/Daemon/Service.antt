-- ===== src/Daemon/Service.antt =====
-- Service.Handle of internal/daemon/service.go and what it calls. A `Setting` holds what the
-- service does not change, with what it asks of its surroundings: the engine's check of a line (the
-- model of which is Diagnose.Engine.Check), the match of the packs, the random source and the clock.
use solomon.Prelude.{
  ℕ, Bool, true, false, ◌&&◌, Option, List, [], ◌∷◌, if◌then◌else◌, Result, Text, codes, equal,
}
use solomon.Config.Defs.{Config}
use solomon.Redact.{Patterns}
use solomon.Diagnose.Rank.{RepairClass, semantic_class}
use solomon.Diagnose.Decision.{Evidence, Decision, risk_text, hundredths, format_confidence}
use solomon.Diagnose.Decision
use solomon.Diagnose.Engine.Values.{Stage, EngineError}
use solomon.Daemon.Tables.{Table}
use solomon.Daemon.Protocol.{
  Action, no_action, hint_action, interrupt_action, rewrite_action, Response, bare,
}
use solomon.Daemon.Tokens.{Confirmation, PendingUndo}
use solomon.Daemon.Learning.{Failure, LearnedRule}
use solomon.Daemon.Evidence.{Extractor}

pub data ServiceError : Type 0 where
  engine_failed : EngineError → ServiceError
  packs_failed no_random unsupported_operation : ServiceError

pub record RuntimeMatch : Type 0 where
  pub pack_id : Text
  pub rule_id : Text
  pub source : Text
  pub suggestion : Text
  pub cause : Text
  pub risk : Text
  pub rationale : Text

-- The readings of the clock within one request.
pub data Moment : Type 0 where
  clearing consuming storing undoing learning : Moment

pub record Extractors : Type 0 where
  pub git : List Extractor
  pub package_manager : List Extractor
  pub javascript : List Extractor
  pub python : List Extractor
  pub rust : List Extractor
  pub go : List Extractor
  pub container : List Extractor
  pub kubernetes_cloud : List Extractor

pub record Setting : Type 0 where
  pub config : Config
  pub patterns : Patterns
  pub extractors : Extractors
  pub has_store : Bool
  pub learned_rules : List LearnedRule
  pub match_line : Text → Result ServiceError (Option RuntimeMatch)
  pub check_shell : Text → Text → Stage → Result EngineError Decision
  pub random_token : Option Text
  pub now : Moment → ℕ

pub record State : Type 0 where
  pub confirmations : Table Confirmation
  pub undos : Table PendingUndo
  pub failures : Table Failure

-- What an operation leaves: the state, and a response or an error.
abbrev pub Outcome : Type 0 → Type 0
Outcome A = State × Result ServiceError A

abbrev pub action_of : Decision.Action → Action
action_of Decision.no_action = no_action
action_of Decision.hint_action = hint_action
action_of Decision.interrupt_action = interrupt_action
action_of Decision.rewrite_action = rewrite_action

-- The loop over the evidence of a semantic decision.
abbrev pub note_evidence : Response → Evidence → Response
note_evidence r e =
    if equal e.kind (codes "pack")
    then record r { pack_id = e.value }
    else if equal e.kind (codes "rule")
    then record r { rule_id = e.value }
    else if equal e.kind (codes "source") && equal e.value (codes "installed")
    then record r { source = codes "installed-pack" }
    else r

abbrev pub note_all : Response → List Evidence → Response
note_all r [] = r
note_all r (e ∷ es) = note_all (note_evidence r e) es

-- A semantic decision is a pack's, and its evidence names the pack and the rule.
abbrev pub by_class : RepairClass → Response → List Evidence → Response
by_class semantic_class r es = note_all (record r { source = codes "curated" }) es
by_class _ r es = r

unfoldable pub response_of : Decision → Response
unfolding format_confidence hundredths
response_of d =
    by_class d.class
      (record (bare (action_of d.action)) {
        rewrite_eligible = d.rewrite_eligible;
        suggestion = d.suggestion;
        explanation = d.cause;
        confidence = format_confidence d.confidence;
        risk = risk_text d.risk;
        source = codes "heuristic";
      })
      d.evidence

abbrev pub is_interrupt : Action → Bool
is_interrupt interrupt_action = true
is_interrupt _ = false

abbrev pub is_rewrite : Action → Bool
is_rewrite rewrite_action = true
is_rewrite _ = false

abbrev pub is_none : Action → Bool
is_none no_action = true
is_none _ = false
