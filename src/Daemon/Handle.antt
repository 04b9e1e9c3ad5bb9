-- ===== src/Daemon/Handle.antt =====
-- Service.Handle of internal/daemon/service.go, and the evidence it attaches to a response.
pub mod Submission
pub mod Undos
pub mod Resubmitted
use solomon.Prelude.{
  not, ◌||◌, Option, none, some, List, [], ◌∷◌, if◌then◌else◌, Result, ok, err, Text, codes, equal,
  elem, fields,
}
use solomon.Diagnose.Engine.Values.{post}
use solomon.Daemon.Protocol.{
  Operation, handshake, status, pre_send, post_failure, post_success, undo, confirm, stop,
  other_operation, Request, no_action, submit_action, edit_in_buffer, ready, stopping, Response,
  bare,
}
use solomon.Daemon.Tokens.{
  PendingUndo, consume_confirmation_token, clear_pending_undo, consume_undo_token,
}
use solomon.Daemon.Learning.{Observation, remember_failure, record_success, safe_failure_output}
use solomon.Daemon.Evidence.{Extractor, extract_failure_evidence}
use solomon.Daemon.Service.{
  ServiceError, unsupported_operation, consuming, undoing, learning, Setting, State, Outcome,
  is_none,
}
use solomon.Daemon.PreSend.{decision, curated_decision, pre_send_response, issue_undo_token}

unfoldable pub first_command_word : Text → Text
first_command_word command = first (fields command)
  where
    first : List Text → Text
    first [] = []
    first (word ∷ words) = word

module _ (setting : Setting) where
  -- One of the attach functions: the evidence of the extractors, on the commands they are for.
  unfoldable pub attach : List Text → List Extractor → Request → Response → Response
  attach commands extractors r response =
      if is_none response.action
        || equal response.suggestion []
        || not (elem (first_command_word r.command) commands)
      then response
      else elim (extract_failure_evidence setting.patterns extractors
          (safe_failure_output setting.patterns r.failure_output)) [
            | none ↦ response
            | some evidence ↦ record response { evidence = evidence }
          ]

  unfoldable pub attach_git : Request → Response → Response
  unfolding attach
  attach_git = attach (codes "git" ∷ []) setting.extractors.git

  unfoldable pub attach_package_manager : Request → Response → Response
  unfolding attach
  attach_package_manager =
      attach (codes "brew" ∷ codes "npm" ∷ codes "pnpm" ∷ codes "yarn" ∷ [])
        setting.extractors.package_manager

  unfoldable pub attach_javascript : Request → Response → Response
  unfolding attach
  attach_javascript =
      attach (codes "bun" ∷ codes "deno" ∷ codes "node" ∷ []) setting.extractors.javascript

  unfoldable pub attach_python : Request → Response → Response
  unfolding attach
  attach_python =
      attach (codes "pip" ∷ codes "pytest" ∷ codes "python" ∷ codes "uv" ∷ [])
        setting.extractors.python

  unfoldable pub attach_rust : Request → Response → Response
  unfolding attach
  attach_rust = attach (codes "cargo" ∷ codes "rustc" ∷ codes "rustup" ∷ []) setting.extractors.rust

  unfoldable pub attach_go : Request → Response → Response
  unfolding attach
  attach_go = attach (codes "go" ∷ codes "gofmt" ∷ []) setting.extractors.go

  unfoldable pub attach_container : Request → Response → Response
  unfolding attach
  attach_container = attach (codes "docker" ∷ codes "podman" ∷ []) setting.extractors.container

  unfoldable pub attach_kubernetes_cloud : Request → Response → Response
  unfolding attach
  attach_kubernetes_cloud =
      attach (codes "aws" ∷ codes "helm" ∷ codes "kubectl" ∷ codes "terraform" ∷ [])
        setting.extractors.kubernetes_cloud

  unfoldable pub attach_all : Request → Response → Response
  attach_all r response = attach_kubernetes_cloud r (
      attach_container r (
        attach_go r (
          attach_rust r (
            attach_python r
              (attach_javascript r (attach_package_manager r (attach_git r response)))))))

  unfoldable pub clear : Request → State → State
  clear r state = record state { undos = clear_pending_undo r.session state.undos }

  abbrev pub attached : Request → Result ServiceError Response → Result ServiceError Response
  attached r (err e) = err e
  attached r (ok response) = ok (attach_all r response)

  abbrev pub after_failure : Request → Outcome (Option Response) → Outcome Response
  after_failure r (state, err e) = (state, err e)
  after_failure r (state, ok (some response)) = (state, ok (attach_all r response))
  after_failure r (state, ok none) = (state, attached r (decision setting r.shell r.command post))

  unfoldable pub handle_post_failure : Request → State → Outcome Response
  handle_post_failure r state =
      let cleared = clear r state in
      let remembered = record cleared {
        failures =
            remember_failure setting.patterns setting.config setting.has_store r
              (setting.now learning) cleared.failures;
      } in
      after_failure r (curated_decision setting remembered r.shell r.command r.session post)

  unfoldable pub handle_pre_send : Request → State → Outcome Response
  handle_pre_send r state = issue_undo_token setting r (pre_send_response setting (clear r state) r)

  unfoldable pub handle_confirm : Request → State → Outcome Response
  handle_confirm r state =
      let (confirmations, granted) =
        consume_confirmation_token r.session r.command r.token (setting.now consuming)
          state.confirmations in
      (
        record state { confirmations = confirmations },
        ok (bare (if granted then submit_action else no_action)),
      )

  abbrev pub restored : Option PendingUndo → Response
  restored none = bare no_action
  restored (some pending) = record (bare edit_in_buffer) {
    suggestion = pending.command;
    risk = codes "safe";
    source = codes "undo";
  }

  unfoldable pub handle_undo : Request → State → Outcome Response
  handle_undo r state =
      if setting.config.undo_enabled
      then (let (undos, taken) =
            consume_undo_token r.session r.token (setting.now undoing) state.undos in
          (record state { undos = undos }, ok (restored taken)))
      else (state, ok (bare no_action))

  -- The observation of a success, if there is one, goes to the store.
  unfoldable pub handle_post_success : Request → State → State × Option Observation
  handle_post_success r state =
      let cleared = clear r state in
      let (failures, observation) =
        record_success setting.patterns setting.config setting.has_store r (setting.now learning)
          cleared.failures in
      (record cleared { failures = failures }, observation)

  -- The switch on the operation.
  abbrev pub handle_as : Operation → Request → State → Outcome Response
  handle_as handshake r state = (state, ok (bare ready))
  handle_as status r state = (state, ok (bare ready))
  handle_as pre_send r state = handle_pre_send r state
  handle_as post_failure r state = handle_post_failure r state
  handle_as post_success r state = ((handle_post_success r state).0, ok (bare no_action))
  handle_as confirm r state = handle_confirm r state
  handle_as undo r state = handle_undo r state
  handle_as stop r state = (state, ok (bare stopping))
  handle_as (other_operation name) r state = (state, err unsupported_operation)

  unfoldable pub handle : Request → State → Outcome Response
  handle r state = handle_as r.operation r state
