-- ===== src/Daemon/Handle/Submission.antt =====
-- When Service.Handle answers that a line is submitted.
use solomon.Prelude.{
  ◌≡◌, refl, sym, ◌∙◌, inl, inr, true, false, Option, none, some, List, arith, Bool-cases, Result,
  ok, err, Text,
}
use solomon.Diagnose.Engine.Values.{post}
use solomon.Daemon.Protocol.{
  Operation, handshake, status, pre_send, post_failure, post_success, undo, confirm, stop,
  other_operation, Request, Response,
}
use solomon.Daemon.Tokens.{PendingUndo, consume_confirmation_token, consume_undo_token}
use solomon.Daemon.Tokens.Once.{consume_confirmation_token_once}
use solomon.Daemon.Evidence.{Extractor}
use solomon.Daemon.Service.{
  ServiceError, consuming, undoing, Setting, State, Outcome, RuntimeMatch, is_rewrite,
}
use solomon.Daemon.PreSend.{
  pre_send_response, issue_undo_token, curated_decision, curated_match, curated_action,
  curated_response, decision,
}
use solomon.Daemon.PreSend.Submit.{is_submit}
use solomon.Daemon.PreSend.Confirmed.{Confirmed, pre_send_response-Confirmed, decision-submit}
use solomon.Daemon.Handle.{
  attach, attach_git, attach_package_manager, attach_javascript, attach_python, attach_rust,
  attach_go, attach_container, attach_kubernetes_cloud, attach_all, clear, attached, after_failure,
  handle_post_failure, handle_pre_send, handle_confirm, restored, handle_undo, handle_as, handle,
}

module _ (setting : Setting) where
  attach-action :
      (commands : List Text) (extractors : List Extractor) (r : Request) (response : Response)
      → (attach setting commands extractors r response).action ≡ response.action
  unfolding attach
  attach-action commands extractors r response = ground arith

  attach_all-action :
      (r : Request) (response : Response) → (attach_all setting r response).action ≡ response.action
  unfolding attach_all attach_git attach_package_manager attach_javascript attach_python attach_rust
      attach_go attach_container attach_kubernetes_cloud
  attach_all-action r response =
      attach-action _ _ r _
      ∙ attach-action _ _ r _
      ∙ attach-action _ _ r _
      ∙ attach-action _ _ r _
      ∙ attach-action _ _ r _
      ∙ attach-action _ _ r _
      ∙ attach-action _ _ r _
      ∙ attach-action _ _ r response

  issue_undo_token-Confirmed :
      (req : Request) (o : Outcome Response) (after : State) (r : Response)
      → issue_undo_token setting req o ≡ (after, ok r)
      → is_submit r.action ≡ true
      → o ≡ (after, ok r)
  unfolding issue_undo_token
  issue_undo_token-Confirmed req (s, err e) after r h submits = absurd (ground arith)
  issue_undo_token-Confirmed req (s, ok q) after r h submits =
      elim (Bool-cases (is_rewrite q.action)) [
        | inl rewrites ↦ absurd (ground arith)
        | inr differs ↦ ground arith
      ]

  restored-submit : (o : Option PendingUndo) → is_submit (restored setting o).action ≡ false
  restored-submit o = ground arith

  module _ (req : Request) (state after : State) (r : Response) where
    handle_pre_send-Confirmed :
        handle_pre_send setting req state ≡ (after, ok r)
        → is_submit r.action ≡ true
        → Confirmed setting state req.session req.command after
    unfolding handle_pre_send clear Confirmed
    handle_pre_send-Confirmed h submits =
        pre_send_response-Confirmed setting (clear setting req state) req after r
          (issue_undo_token-Confirmed req (pre_send_response setting (clear setting req state) req)
            after r h submits)
          submits

    handle_confirm-Confirmed :
        handle_confirm setting req state ≡ (after, ok r)
        → is_submit r.action ≡ true
        → Confirmed setting state req.session req.command after
    unfolding handle_confirm Confirmed
    handle_confirm-Confirmed h submits =
        let (granted, gone) =
          consume_confirmation_token_once req.session req.command req.token (setting.now consuming)
            state.confirmations (ground arith) in
        let (pending, found, same, token, live) = granted in
        let e : (consume_confirmation_token req.session req.command req.token
              (setting.now consuming) state.confirmations).0
            ≡ after.confirmations =
          ground arith in
        (rw (sym e) gone, (pending, found, same, live))

    handle_undo-submit : handle_undo setting req state ≡ (after, ok r) → is_submit r.action ≡ false
    unfolding handle_undo
    handle_undo-submit h =
        let never =
          restored-submit
            (consume_undo_token req.session req.token (setting.now undoing) state.undos).1 in
        ground arith

    attached-submit :
        (m : Result ServiceError Response)
        → ((q : Response) → m ≡ ok q → is_submit q.action ≡ false)
        → attached setting req m ≡ ok r
        → is_submit r.action ≡ false
    attached-submit (err e) never h = absurd (ground arith)
    attached-submit (ok q) never h =
        let same : attach_all setting req q ≡ r = ground arith in
        rw (sym same, attach_all-action req q) (never q refl)

    curated_match-submit :
        (s : State) (shell_name command session : Text)
        (m : Result ServiceError (Option RuntimeMatch)) (q : Response)
        → curated_match setting s shell_name command session post m ≡ (after, ok (some q))
        → is_submit q.action ≡ false
    unfolding curated_action curated_response
    curated_match-submit s shell_name command session (err e) q h = absurd (ground arith)
    curated_match-submit s shell_name command session (ok none) q h = absurd (ground arith)
    curated_match-submit s shell_name command session (ok (some m)) q h = ground arith

    curated_decision-submit :
        (s : State) (shell_name command session : Text) (q : Response)
        → curated_decision setting s shell_name command session post ≡ (after, ok (some q))
        → is_submit q.action ≡ false
    unfolding curated_decision
    curated_decision-submit s shell_name command session q h =
        curated_match-submit s shell_name command session (setting.match_line command) q
          (ground arith)

    after_failure-submit :
        (o : Outcome (Option Response)) (s : State)
        → curated_decision setting s req.shell req.command req.session post ≡ o
        → after_failure setting req o ≡ (after, ok r)
        → is_submit r.action ≡ false
    after_failure-submit (t, err e) s g h = absurd (ground arith)
    after_failure-submit (t, ok (some q)) s g h =
        let same : attach_all setting req q ≡ r = ground arith in
        let here : t ≡ after = ground arith in
        let never : is_submit q.action ≡ false =
          curated_decision-submit s req.shell req.command req.session q (rw (sym here) g) in
        rw (sym same, attach_all-action req q) never
    after_failure-submit (t, ok none) s g h =
        attached-submit (decision setting req.shell req.command post)
          (λ q. decision-submit setting s req after r req.shell req.command post q) (ground arith)

    handle_post_failure-submit :
        handle_post_failure setting req state ≡ (after, ok r) → is_submit r.action ≡ false
    unfolding handle_post_failure
    handle_post_failure-submit h = after_failure-submit _ _ refl h

    no_submission :
        (s : State) (q : Response)
        → ◌≡◌ {A = Outcome Response} (s, ok q) (after, ok r)
        → is_submit q.action ≡ false
        → is_submit r.action ≡ true
        → Confirmed setting state req.session req.command after
    no_submission s q h never submits = let same : q ≡ r = ground arith in absurd (cc)

    handle_as-Confirmed :
        (op : Operation)
        → handle_as setting op req state ≡ (after, ok r)
        → is_submit r.action ≡ true
        → Confirmed setting state req.session req.command after
    handle_as-Confirmed handshake h submits = no_submission _ _ h refl submits
    handle_as-Confirmed status h submits = no_submission _ _ h refl submits
    handle_as-Confirmed pre_send h submits = handle_pre_send-Confirmed h submits
    handle_as-Confirmed post_failure h submits = absurd (let n = handle_post_failure-submit h in cc)
    handle_as-Confirmed post_success h submits = no_submission _ _ h refl submits
    handle_as-Confirmed confirm h submits = handle_confirm-Confirmed h submits
    handle_as-Confirmed undo h submits = absurd (let n = handle_undo-submit h in cc)
    handle_as-Confirmed stop h submits = no_submission _ _ h refl submits
    handle_as-Confirmed (other_operation name) h submits = absurd (ground arith)

    -- A request is answered with a submission only when the session had a confirmation for
    -- exactly this command that had not expired, and this confirmation is consumed by the answer.
    pub handle-Confirmed :
        handle setting req state ≡ (after, ok r)
        → is_submit r.action ≡ true
        → Confirmed setting state req.session req.command after
    unfolding handle
    handle-Confirmed = handle_as-Confirmed req.operation
