-- ===== src/Daemon/Protocol.antt =====
-- internal/daemon/protocol.go. Actions are the strings that the daemon itself writes.
use solomon.Prelude.{
  ℕ, ◌+◌, Bool, true, false, not, ◌&&◌, ◌||◌, List, [], ◌∷◌, leb, ◌==◌, Result, ◌>>◌, guard, Text,
  equal, contains_rune, is_control, byte_len,
}
use solomon.Diagnose.Decision.{Evidence}

pub data Operation : Type 0 where
  handshake status pre_send post_failure post_success undo confirm stop : Operation
  other_operation : Text → Operation

abbrev pub protocol_version : ℕ
protocol_version = 1

abbrev pub max_request_bytes : ℕ
max_request_bytes = 65536

pub record Request : Type 0 where
  pub version : ℕ
  pub operation : Operation
  pub shell : Text
  pub command : Text
  pub failure_output : Text
  pub session : Text
  pub token : Text

pub data Action : Type 0 where
  no_action hint_action interrupt_action rewrite_action submit_action edit_in_buffer : Action
  ready stopping : Action

pub record Response : Type 0 where
  pub version : ℕ
  pub action : Action
  pub rewrite_eligible : Bool
  pub suggestion : Text
  pub explanation : Text
  pub confidence : Text
  pub risk : Text
  pub source : Text
  pub pack_id : Text
  pub rule_id : Text
  pub evidence : List Evidence
  pub confirmation_token : Text
  pub undo_token : Text

pub data ProtocolError : Type 0 where
  unsupported_version unsupported_operation size_limit token_data control_characters : ProtocolError
  unsupported_response_version action_required : ProtocolError

abbrev pub valid_operation : Operation → Bool
valid_operation (other_operation name) = false
valid_operation _ = true

unfoldable pub contains_unsafe_control : Text → Bool
contains_unsafe_control [] = false
contains_unsafe_control (c ∷ cs) =
    is_control c && not (c == 10) && not (c == 13) && not (c == 9) || contains_unsafe_control cs

-- Request.Validate
unfoldable pub validate_request : Request → Result ProtocolError (Unit {0})
validate_request r = do
  guard (r.version == protocol_version) unsupported_version
  guard (valid_operation r.operation) unsupported_operation
  guard
      (leb (byte_len r.command + byte_len r.failure_output + byte_len r.session + byte_len r.token)
        max_request_bytes)
      size_limit
  guard (not (contains_rune r.session 0 || contains_rune r.token 0)) token_data
  guard (not (contains_unsafe_control r.failure_output)) control_characters

-- Response.Validate on what a client has decoded: a version, and any text as the action.
unfoldable pub validate_response : ℕ → Text → Result ProtocolError (Unit {0})
validate_response version action = do
  guard (version == protocol_version) unsupported_response_version
  guard (not (equal action [])) action_required

-- A response that says nothing but its action.
abbrev pub bare : Action → Response
bare action = record {
  version = protocol_version;
  action = action;
  rewrite_eligible = false;
  suggestion = [];
  explanation = [];
  confidence = [];
  risk = [];
  source = [];
  pack_id = [];
  rule_id = [];
  evidence = [];
  confirmation_token = [];
  undo_token = [];
}
