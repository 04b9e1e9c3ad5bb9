-- ===== src/Config/Defs.antt =====
-- The types, the defaults and the validity of a configuration, of internal/config/config.go. A Go
-- string that the program compares with named values has a constructor for each, and `other` ones.
use solomon.Prelude.{
  ℕ, ◌≤◌, ◌≡◌, Bool, true, false, not, ◌&&◌, ◌||◌, List, [], ◌∷◌, arith, ltb, leb, ◌==◌,
  if◌then◌else◌, Result, ok, err, ◌>>=◌, ◌>>◌, guard, all, Text, codes, equal, elem, trim_space,
  byte_len,
}

pub data ConfigError : Type 0 where
  invalid_exception_id invalid_exception_command exception_exists command_exists : ConfigError
  exception_missing duplicate_id duplicate_command unsupported_version invalid_mode : ConfigError
  invalid_action invalid_retention invalid_ttl history_unsupported not_boolean : ConfigError
  unknown_key unknown_override duplicate_override invalid_override parse_failure : ConfigError

pub data Mode : Type 0 where
  hint interrupt off rewrite : Mode
  other_mode : Text → Mode

pub data LearnedAction : Type 0 where
  off_action hint_action rewrite_action : LearnedAction
  other_action : Text → LearnedAction

unfoldable pub mode_of : Text → Mode
mode_of value =
    if equal value (codes "hint")
    then hint
    else if equal value (codes "interrupt")
    then interrupt
    else if equal value (codes "off")
    then off
    else if equal value (codes "rewrite")
    then rewrite
    else other_mode value

unfoldable pub learned_action_of : Text → LearnedAction
learned_action_of value =
    if equal value (codes "off")
    then off_action
    else if equal value (codes "hint")
    then hint_action
    else if equal value (codes "rewrite")
    then rewrite_action
    else other_action value

abbrev pub valid_mode : Mode → Bool
valid_mode (other_mode value) = false
valid_mode _ = true

abbrev pub valid_learned_rule_action : LearnedAction → Bool
valid_learned_rule_action (other_action value) = false
valid_learned_rule_action _ = true

abbrev pub is_mode_off : Mode → Bool
is_mode_off off = true
is_mode_off _ = false

abbrev pub is_mode_interrupt : Mode → Bool
is_mode_interrupt interrupt = true
is_mode_interrupt _ = false

abbrev pub is_mode_rewrite : Mode → Bool
is_mode_rewrite rewrite = true
is_mode_rewrite _ = false

pub record RuleException : Type 0 where
  pub id : Text
  pub command : Text

pub record Display : Type 0 where
  pub cause : Bool
  pub change : Bool
  pub confidence : Bool
  pub risk : Bool
  pub consequence : Bool
  pub trace : Bool

pub record Config : Type 0 where
  pub schema_version : ℕ
  pub mode : Mode
  pub display : Display
  pub auto_apply_safe : Bool
  pub local_history_enabled : Bool
  pub curated_packs_enabled : Bool
  pub risk_interrupt : Bool
  pub local_learning_enabled : Bool
  pub learning_retention_days : ℕ
  pub learned_rule_action_ceiling : LearnedAction
  pub undo_enabled : Bool
  pub undo_ttl_seconds : ℕ
  pub rule_exceptions : List RuleException

abbrev pub current_schema_version : ℕ
current_schema_version = 7

abbrev pub max_rule_exception_command_bytes : ℕ
max_rule_exception_command_bytes = 8192

abbrev pub max_learning_retention_days : ℕ
max_learning_retention_days = 90

abbrev pub max_undo_ttl_seconds : ℕ
max_undo_ttl_seconds = 300

unfoldable pub default : Config
default = record {
  schema_version = current_schema_version;
  mode = hint;
  display = record {
    cause = true;
    change = true;
    confidence = true;
    risk = true;
    consequence = true;
    trace = false;
  };
  auto_apply_safe = false;
  local_history_enabled = false;
  curated_packs_enabled = true;
  risk_interrupt = false;
  local_learning_enabled = false;
  learning_retention_days = 30;
  learned_rule_action_ceiling = hint_action;
  undo_enabled = true;
  undo_ttl_seconds = 30;
  rule_exceptions = [];
}

abbrev id_character : ℕ → Bool
id_character c = leb b'a' c && leb c b'z' || leb b'0' c && leb c b'9' || c == b'-' || c == b'_'

unfoldable pub valid_rule_exception_id : Text → Bool
valid_rule_exception_id [] = false
valid_rule_exception_id (c ∷ cs) =
    if ltb 64 (byte_len (c ∷ cs)) || ltb c b'a' || ltb b'z' c then false else all id_character cs

abbrev is_empty : Text → Bool
is_empty [] = true
is_empty (c ∷ cs) = false

unfoldable pub validate_rule_exception : RuleException → Result ConfigError (Unit {0})
validate_rule_exception exception =
    if not (valid_rule_exception_id exception.id)
    then err invalid_exception_id
    else if is_empty (trim_space exception.command)
        || ltb max_rule_exception_command_bytes (byte_len exception.command)
    then err invalid_exception_command
    else ok tt

-- The loop of validateRuleExceptions, with the ids and the commands seen so far.
unfoldable pub validate_from :
    List Text → List Text → List RuleException → Result ConfigError (Unit {0})
validate_from seen_ids seen_commands [] = ok tt
validate_from seen_ids seen_commands (exception ∷ exceptions) = do
  validate_rule_exception exception
  guard (not (elem exception.id seen_ids)) duplicate_id
  guard (not (elem exception.command seen_commands)) duplicate_command
  validate_from (exception.id ∷ seen_ids) (exception.command ∷ seen_commands) exceptions

unfoldable pub validate_rule_exceptions : List RuleException → Result ConfigError (Unit {0})
unfolding validate_from
validate_rule_exceptions exceptions = validate_from [] [] exceptions

-- The checks at the end of decode, behind JSON and migration.
unfoldable pub validate : Config → Result ConfigError Config
validate base =
    if not (valid_mode base.mode)
    then err invalid_mode
    else if not (valid_learned_rule_action base.learned_rule_action_ceiling)
    then err invalid_action
    else if ltb base.learning_retention_days 1
        || ltb max_learning_retention_days base.learning_retention_days
    then err invalid_retention
    else if ltb base.undo_ttl_seconds 1 || ltb max_undo_ttl_seconds base.undo_ttl_seconds
    then err invalid_ttl
    else if base.local_history_enabled
    then err history_unsupported
    else validate_rule_exceptions base.rule_exceptions >>= λ _. ok base

-- What every loaded configuration satisfies.
pub record IsValid (c : Config) : Type 0 where
  pub mode_known : valid_mode c.mode ≡ true
  pub ceiling_known : valid_learned_rule_action c.learned_rule_action_ceiling ≡ true
  pub retention_low : 1 ≤ c.learning_retention_days
  pub retention_high : c.learning_retention_days ≤ max_learning_retention_days
  pub ttl_low : 1 ≤ c.undo_ttl_seconds
  pub ttl_high : c.undo_ttl_seconds ≤ max_undo_ttl_seconds
  pub no_history : c.local_history_enabled ≡ false
  pub exceptions_valid : validate_rule_exceptions c.rule_exceptions ≡ ok tt

pub default-IsValid : IsValid default
unfolding default validate_rule_exceptions
default-IsValid = ground arith

pub validate-IsValid : (c d : Config) → validate c ≡ ok d → (d ≡ c) × IsValid c
unfolding validate
validate-IsValid c d h = ground arith
