-- ===== src/Diagnose/Protocol.antt =====
-- The records of a decision in internal/diagnose/engine.go: Event, Inspect, Record and JSON. The
-- encoding of a text in base64, and that of an event in JSON, are parameters. An action is one of
-- the four that the protocol has.
pub mod Fields
use solomon.Prelude.{
  ℕ, zero, ◌+◌, Bool, not, ◌||◌, Option, none, some, List, [], ◌∷◌, ◌++◌, leb, ◌==◌, Result, ok,
  err, ◌>>=◌, ◌>>◌, guard, Text, codes, equal, fields, join_with, byte_len,
}
use solomon.Redact.{Patterns}
use solomon.Diagnose.Rank.{Confidence, RepairClass}
use solomon.Diagnose.Risk.{Risk, MessageKey}
use solomon.Diagnose.Decision.{
  Action, no_action, hint_action, interrupt_action, rewrite_action, Evidence, Decision, risk_text,
  valid_risk, adapter_protocol_version, itoa, format_confidence,
}
use solomon.Diagnose.Diff.{command_diff, command_diff_emphasis}

pub record Event : Type 0 where
  pub version : ℕ
  pub stage : Text
  pub action : Action
  pub rewrite_eligible : Bool
  pub cause : Text
  pub cause_key : MessageKey
  pub consequence : Text
  pub consequence_key : MessageKey
  pub suggestion : Text
  pub class : RepairClass
  pub evidence : List Evidence
  pub confidence : Confidence
  pub risk : Risk
  pub risk_rationale : Text
  pub risk_rationale_key : MessageKey
  pub incomplete : Bool
  pub trace : List Text

pub record Inspection : Type 0 where
  pub event : Event
  pub diff : Text
  pub emphasized_diff : Text

pub data ProtocolError : Type 0 where
  unsupported_version : ℕ → ProtocolError
  invalid_risk : Text → ProtocolError
  invalid_confidence : Confidence → ProtocolError
  invalid_stage : Text → ProtocolError
  output_limit marshal_failed : ProtocolError

abbrev pub event_of : Decision → Text → Event
event_of d stage = record {
  version = d.version;
  stage = stage;
  action = d.action;
  rewrite_eligible = d.rewrite_eligible;
  cause = d.cause;
  cause_key = d.cause_key;
  consequence = d.consequence;
  consequence_key = d.consequence_key;
  suggestion = d.suggestion;
  class = d.class;
  evidence = d.evidence;
  confidence = d.confidence;
  risk = d.risk;
  risk_rationale = d.risk_rationale;
  risk_rationale_key = d.risk_rationale_key;
  incomplete = d.incomplete;
  trace = d.trace;
}

abbrev pub action_text : Action → Text
action_text no_action = codes "none"
action_text hint_action = codes "hint"
action_text interrupt_action = codes "interrupt"
action_text rewrite_action = codes "rewrite"

-- A fraction is a number, and not below zero.
unfoldable pub validate_protocol : Decision → Result ProtocolError (Unit {0})
validate_protocol d = do
  guard (d.version == adapter_protocol_version) (unsupported_version d.version)
  guard (valid_risk d.risk) (invalid_risk (risk_text d.risk))
  guard (leb d.confidence.part d.confidence.total) (invalid_confidence d.confidence)

abbrev pub is_stage : Text → Bool
is_stage stage = equal stage (codes "pre") || equal stage (codes "post")

unfoldable pub inspect : Patterns → Decision → Text → Text → Result ProtocolError Inspection
unfolding validate_protocol
inspect patterns d stage command = do
  guard (is_stage stage) (invalid_stage stage)
  validate_protocol d
  ok (record {
    event = event_of d stage;
    diff = command_diff patterns d command;
    emphasized_diff = command_diff_emphasis patterns d command;
  })

abbrev pub max_output_bytes : ℕ
max_output_bytes = 8192

-- The fields of a record, in the order in which they stand.
abbrev pub record_fields : (Text → Text) → Decision → List Text
record_fields encode d =
    itoa d.version
    ∷ action_text d.action
    ∷ risk_text d.risk
    ∷ format_confidence d.confidence
    ∷ encode d.cause
    ∷ encode d.consequence
    ∷ encode d.suggestion
    ∷ []

-- Decision.Record
unfoldable pub record_of : (Text → Text) → Decision → Result ProtocolError Text
unfolding validate_protocol
record_of encode d = do
  validate_protocol d
  let line = join_with (codes "\t") (record_fields encode d) ++ codes "\n"
  guard (leb (byte_len line) max_output_bytes) output_limit
  ok line

-- The bound of Decision.JSON on what the encoding gives.
abbrev pub marshalled : Option Text → Result ProtocolError Text
marshalled none = err marshal_failed
marshalled (some contents) =
    guard (leb (byte_len contents + 1) max_output_bytes) output_limit >>= λ _. ok contents

-- Decision.JSON
unfoldable pub json_of : (Event → Option Text) → Decision → Text → Result ProtocolError Text
unfolding validate_protocol
json_of marshal d stage = do
  guard (is_stage stage) (invalid_stage stage)
  validate_protocol d
  marshalled (marshal (event_of d stage))
