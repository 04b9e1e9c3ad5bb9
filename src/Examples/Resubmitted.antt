-- ===== src/Examples/Resubmitted.antt =====
-- An interruption of a line, and its confirmation a second later.
use solomon.Prelude.{
  [], ◌∷◌, ok, codes, text_lt, has_prefix, has_suffix, contains_rune, lower_rune, to_upper,
  is_space, is_control, cut_at, split_at, fields, join_with, width, byte_len, insert, sort,
  trim_left_space, upper_rune, trim_left_space,
}
use solomon.Diagnose.Decision.{Decision, no_decision}
use solomon.Diagnose.Decision
use solomon.Daemon.Protocol.{Request, Response, pre_send, interrupt_action}
use solomon.Daemon.Service.{Moment, Setting, State, response_of}
use solomon.Examples.Daemon.{setting}

abbrev risky : Decision
risky = record no_decision { action = Decision.interrupt_action }

abbrev interrupting : Setting
interrupting = record setting { check_shell = λ shell line stage. ok risky }

abbrev a_second_later : Setting
a_second_later = record interrupting { now = λ moment. 5000000000 }

abbrev request : Request
request = record {
  version = 1;
  operation = pre_send;
  shell = codes "zsh";
  command = codes "rm -r build";
  failure_output = [];
  session = codes "tab-1";
  token = [];
}

abbrev idle : State
idle = record { confirmations = []; undos = []; failures = [] }

abbrev waiting : State
waiting = record idle {
  confirmations =
      (
        codes "tab-1",
        record { command = codes "rm -r build"; token = codes "f00d"; expires = 9000000000 },
      )
      ∷ [];
}

abbrev answer : Response
answer = record (response_of risky) { action = interrupt_action; confirmation_token = codes "f00d" }
