-- ===== src/Examples/Daemon.antt =====
-- A confirmation and an undo in the daemon.
use solomon.Prelude.{◌<◌, ◌≡◌, refl, true, false, ◌||◌, none, some, [], ◌∷◌, ok, Text, codes, equal}
use solomon.Config.Defs.{default}
use solomon.Redact.{no_patterns}
use solomon.Diagnose.Decision.{no_decision}
use solomon.Daemon.Tables.{Table, find}
use solomon.Daemon.Protocol.{Request, confirm, Response, bare, submit_action}
use solomon.Daemon.Tokens.{
  Confirmation, PendingUndo, second, consume_confirmation, consume_confirmation_token,
  store_confirmation, store_undo_token, consume_undo_token,
}
use solomon.Daemon.Tokens.Once.{consume_confirmation_token_once}
use solomon.Daemon.Tokens.Undos.{consume_undo_token_lem}
use solomon.Daemon.Service.{Extractors, Setting, State, Outcome}
use solomon.Daemon.PreSend.Confirmed.{Confirmed}
use solomon.Daemon.Handle.{handle}
use solomon.Daemon.Handle.Submission.{handle-Confirmed}

abbrev tab : Text
tab = codes "tab-1"

abbrev command : Text
command = codes "rm -r build"

abbrev token : Text
token = codes "f00d"

abbrev pending : Table Confirmation
pending = (tab, record { command = command; token = token; expires = 5000000000 }) ∷ []

named : (equal tab [] || equal command [] || equal token []) ≡ false
unfolding equal
named = refl

agreed : (consume_confirmation_token tab command token 4000000000 pending).1 ≡ true
unfolding consume_confirmation_token find equal
agreed = refl

consume_confirmation_token_once_example :
    ((c : Confirmation) × (find pending tab ≡ some c)
      × (c.command ≡ command)
      × (c.token ≡ token)
      × (4000000000 < c.expires))
    × (find (consume_confirmation_token tab command token 4000000000 pending).0 tab ≡ none)
consume_confirmation_token_once_example =
    consume_confirmation_token_once tab command token 4000000000 pending agreed

abbrev undos : Table PendingUndo
undos = (token, record { session = tab; command = command; expires = 9000000000 }) ∷ []

abbrev taken : PendingUndo
taken = record { session = tab; command = command; expires = 9000000000 }

takes : (consume_undo_token tab token 1 undos).1 ≡ some taken
unfolding consume_undo_token find solomon.Daemon.Tables.keep equal
    solomon.Daemon.Tokens.remove_expired_undos
takes = refl

consume_undo_token_lem_example :
    (tab ≡ tab) × (1 < 9000000000) × (find (consume_undo_token tab token 1 undos).0 token ≡ none)
consume_undo_token_lem_example = consume_undo_token_lem tab token 1 undos taken takes

abbrev no_extractors : Extractors
no_extractors = record {
  git = [];
  package_manager = [];
  javascript = [];
  python = [];
  rust = [];
  go = [];
  container = [];
  kubernetes_cloud = [];
}

abbrev pub setting : Setting
setting = record {
  config = default;
  patterns = no_patterns;
  extractors = no_extractors;
  has_store = false;
  learned_rules = [];
  match_line = λ line. ok none;
  check_shell = λ shell line stage. ok no_decision;
  random_token = some token;
  now = λ moment. 4000000000;
}

abbrev pub state : State
state = record { confirmations = pending; undos = []; failures = [] }

abbrev request : Request
request = record {
  version = 1;
  operation = confirm;
  shell = codes "zsh";
  command = command;
  failure_output = [];
  session = tab;
  token = token;
}

confirms :
    ◌≡◌ {A = Outcome Response}
      (handle setting request state)
      (record state { confirmations = [] }, ok (bare submit_action))
unfolding handle solomon.Daemon.Handle.handle_confirm consume_confirmation_token find equal
    solomon.Daemon.Tables.delete solomon.Daemon.Tables.keep
confirms = refl

handle-Confirmed_example : Confirmed setting state tab command (record state { confirmations = [] })
handle-Confirmed_example =
    handle-Confirmed setting request state (record state { confirmations = [] })
      (bare submit_action) confirms refl
