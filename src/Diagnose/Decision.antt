-- ===== src/Diagnose/Decision.antt =====
-- Decisions of internal/diagnose/engine.go: their texts, their size, and the evidence for them.
use solomon.Prelude.{
  ℕ, zero, suc, ◌+◌, ◌*◌, Bool, true, false, not, ◌||◌, none, some, List, [], ◌∷◌, ◌++◌, ltb,
  if◌then◌else◌, get_elem?, Text, codes, equal, byte_len, ◌%◌, ◌/◌,
}
use solomon.Diagnose.Rank.{
  Confidence, RepairClass, no_class, command_class, semantic_class, path_class,
  meets_confidence_threshold,
}
use solomon.Diagnose.Risk.{
  Risk, safe, unknown, high, other, MessageKey, no_message, cause_command_not_found,
  consequence_command_rejects, cause_unknown_git_subcommand, consequence_git_exits,
  cause_path_not_found, consequence_path_may_fail, risk_secret, risk_privilege_escalation,
  risk_network_effect, risk_filesystem_mutation, risk_recognized_safe, risk_unknown,
}

pub data Action : Type 0 where
  no_action hint_action interrupt_action rewrite_action : Action

pub record Evidence : Type 0 where
  pub kind : Text
  pub value : Text

abbrev pub adapter_protocol_version : ℕ
adapter_protocol_version = 1

pub record Decision : Type 0 where
  pub version : ℕ
  pub action : Action
  pub rewrite_eligible : Bool
  pub cause : Text
  pub cause_key : MessageKey
  pub consequence : Text
  pub consequence_key : MessageKey
  pub suggestion : Text
  pub class : RepairClass
  pub evidence : List Evidence
  pub confidence : Confidence
  pub risk : Risk
  pub risk_rationale : Text
  pub risk_rationale_key : MessageKey
  pub incomplete : Bool
  pub trace : List Text
  pub original : Text
  pub replacement : Text
  pub occurrence : ℕ

-- The string of a key, and the message that defaultMessages has for it.
unfoldable pub key_text : MessageKey → Text
key_text no_message = []
key_text cause_command_not_found = codes "diagnostic.cause.command_not_found"
key_text consequence_command_rejects = codes "diagnostic.consequence.command_rejects"
key_text cause_unknown_git_subcommand = codes "diagnostic.cause.unknown_git_subcommand"
key_text consequence_git_exits = codes "diagnostic.consequence.git_exits"
key_text cause_path_not_found = codes "diagnostic.cause.path_not_found"
key_text consequence_path_may_fail = codes "diagnostic.consequence.path_may_fail"
key_text risk_secret = codes "diagnostic.risk.secret"
key_text risk_privilege_escalation = codes "diagnostic.risk.privilege_escalation"
key_text risk_network_effect = codes "diagnostic.risk.network_effect"
key_text risk_filesystem_mutation = codes "diagnostic.risk.filesystem_mutation"
key_text risk_recognized_safe = codes "diagnostic.risk.recognized_safe"
key_text risk_unknown = codes "diagnostic.risk.unknown"

unfoldable pub message : MessageKey → Text
message no_message = []
message cause_command_not_found = codes "command not found locally"
message consequence_command_rejects = codes "the shell would reject this command"
message cause_unknown_git_subcommand = codes "unknown Git subcommand"
message consequence_git_exits = codes "Git will exit before performing work"
message cause_path_not_found = codes "path does not exist"
message consequence_path_may_fail = codes "the command may fail or target the wrong file"
message risk_secret = codes "contains a secret-bearing argument"
message risk_privilege_escalation = codes "invokes privilege escalation"
message risk_network_effect = codes "has a network effect"
message risk_filesystem_mutation = codes "may modify the filesystem"
message risk_recognized_safe = codes "is a recognized read-only command"
message risk_unknown = codes "could not establish a safe local classification"

abbrev pub class_text : RepairClass → Text
class_text no_class = []
class_text command_class = codes "command"
class_text semantic_class = codes "semantic"
class_text path_class = codes "path"

abbrev pub risk_text : Risk → Text
risk_text safe = codes "safe"
risk_text unknown = codes "unknown"
risk_text high = codes "high"
risk_text (other value) = value

abbrev pub valid_risk : Risk → Bool
valid_risk (other value) = false
valid_risk _ = true

-- A decision with Go's zero values, and noDecision.
abbrev pub empty_decision : Decision
empty_decision = record {
  version = 0;
  action = no_action;
  rewrite_eligible = false;
  cause = [];
  cause_key = no_message;
  consequence = [];
  consequence_key = no_message;
  suggestion = [];
  class = no_class;
  evidence = [];
  confidence = record { part = 0; total = 1 };
  risk = other [];
  risk_rationale = [];
  risk_rationale_key = no_message;
  incomplete = false;
  trace = [];
  original = [];
  replacement = [];
  occurrence = 0;
}

abbrev pub no_decision : Decision
no_decision = record empty_decision { version = adapter_protocol_version; risk = safe }

evidence_size : List Evidence → ℕ
evidence_size [] = 0
evidence_size (e ∷ es) = byte_len e.kind + byte_len e.value + evidence_size es

trace_size : List Text → ℕ
trace_size [] = 0
trace_size (t ∷ ts) = byte_len t + trace_size ts

unfoldable pub decision_output_size : Decision → ℕ
unfolding evidence_size trace_size
decision_output_size d =
    byte_len d.cause
    + byte_len (key_text d.cause_key)
    + byte_len d.consequence
    + byte_len (key_text d.consequence_key)
    + byte_len d.suggestion
    + byte_len (class_text d.class)
    + byte_len (risk_text d.risk)
    + byte_len d.risk_rationale
    + byte_len (key_text d.risk_rationale_key)
    + 128
    + evidence_size d.evidence
    + trace_size d.trace

-- strconv.Itoa: `fuel` bounds the digits, of which a number has at most as many as its value plus one.
unfoldable pub digits_onto : ℕ → ℕ → Text → Text
digits_onto zero n out = out
digits_onto (suc fuel) n out =
    let digit = (b'0' + n % 10) ∷ out in
    let more = digits_onto fuel (n / 10) digit in if ltb n 10 then digit else more

unfoldable pub itoa : ℕ → Text
unfolding digits_onto
itoa n = digits_onto (suc n) n []

-- strconv.FormatFloat(value, 'f', 2, 64) of a fraction up to one, halves to the even side
unfoldable pub hundredths : Confidence → ℕ
hundredths c =
    let whole = 100 * c.part / c.total in
    let rest = 2 * (100 * c.part % c.total) in
    if ltb rest c.total then whole else if ltb c.total rest then whole + 1 else whole + whole % 2

unfoldable pub format_confidence : Confidence → Text
format_confidence c =
    let h = hundredths c in itoa (h / 100) ++ (b'.' ∷ (b'0' + h / 10 % 10) ∷ (b'0' + h % 10) ∷ [])

abbrev threshold_text : RepairClass → Text
threshold_text command_class = codes "0.60"
threshold_text semantic_class = codes "0.75"
threshold_text path_class = codes "0.90"
threshold_text no_class = codes "1.00"

abbrev pub evidence_of : Text → Text → Evidence
evidence_of kind value = record { kind = kind; value = value }

-- A negative distance does not occur: distances are numbers here.
unfoldable pub collect_evidence : RepairClass → Text → ℕ → Confidence → List Evidence
unfolding itoa
collect_evidence class resolver distance value =
    if equal resolver [] || not (meets_confidence_threshold class value)
    then []
    else evidence_of (codes "resolver") resolver
      ∷ evidence_of (codes "edit_distance") (itoa distance)
      ∷ evidence_of (codes "confidence_threshold") (threshold_text class)
      ∷ []

-- tokenOccurrence: how often words[position] stands in the words up to that position.
count_until : Text → ℕ → List Text → ℕ
count_until word k [] = 0
count_until word zero (w ∷ ws) = if equal w word then 1 else 0
count_until word (suc k) (w ∷ ws) = (if equal w word then 1 else 0) + count_until word k ws

unfoldable pub token_occurrence : List Text → ℕ → ℕ
unfolding count_until
token_occurrence words position = elim (get_elem? words position) [
  | none ↦ 0
  | some word ↦ count_until word position words
]

-- replaced[position] = word
abbrev pub set : List Text → ℕ → Text → List Text
set [] i v = []
set (x ∷ xs) zero v = v ∷ xs
set (x ∷ xs) (suc i) v = x ∷ set xs i v
