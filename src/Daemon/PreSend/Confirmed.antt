-- ===== src/Daemon/PreSend/Confirmed.antt =====
-- When preSend lets a line be submitted, and what of the state it leaves alone.
use solomon.Prelude.{
  ℕ, ◌<◌, ◌≡◌, refl, sym, ◌⊎◌, inl, inr, true, false, Option, none, some, [], arith, Bool-cases,
  Option-cases, Result, ok, err, Text, equal, equal_iff, and_true, ltb→lt,
}
use solomon.Diagnose.Decision.{Decision}
use solomon.Diagnose.Engine.Values.{Stage, pre, EngineError}
use solomon.Diagnose.Shells.{shell_command_supported}
use solomon.Daemon.Tables.{find, delete, find-delete_same}
use solomon.Daemon.Protocol.{Request, Response}
use solomon.Daemon.Tokens.{Confirmation, before, confirmed, consume_confirmation}
use solomon.Daemon.Learning.{learned_decision, normalized_learning_command}
use solomon.Daemon.Service.{
  ServiceError, RuntimeMatch, consuming, Setting, State, Outcome, response_of,
}
use solomon.Daemon.PreSend.{
  decision, ask_confirmation, curated_response, curated_risk, curated_action, curated_decision,
  confirm_interrupt, pre_send_response, found, after_curated, after_learned, engine_response,
  curated_match,
}
use solomon.Daemon.PreSend.Submit.{is_submit, response_of-submit, first_rule-submit}
use solomon.Daemon.PreSend.Undecided.{curated_decision-none}

module _ (setting : Setting) where
  -- The confirmation that lets a line be submitted, which is no longer pending afterwards.
  unfoldable pub Confirmed : State → Text → Text → State → Type 0
  Confirmed state session command after =
      (find after.confirmations session ≡ none)
      × ((pending : Confirmation) × (find state.confirmations session ≡ some pending)
          × (pending.command ≡ command)
          × (setting.now consuming < pending.expires))

  granted :
      (session command : Text) (state : State) (now : ℕ) (o : Option Confirmation)
      → find state.confirmations session ≡ o
      → confirmed command now o ≡ true
      → (pending : Confirmation) × (find state.confirmations session ≡ some pending)
        × (pending.command ≡ command)
        × (now < pending.expires)
  granted session command state now none e h = absurd (cc)
  granted session command state now (some pending) e h =
      let (same, live) = and_true (equal pending.command command) (before now pending.expires) h in
      (pending, e, (equal_iff pending.command command).0 same, ltb→lt now pending.expires live)

  ask_confirmation-Confirmed :
      (state : State) (session command : Text) (response : Response) (after : State) (r : Response)
      → ask_confirmation setting state session command response ≡ (after, ok r)
      → is_submit r.action ≡ true
      → Confirmed state session command after
  unfolding ask_confirmation Confirmed consume_confirmation
  ask_confirmation-Confirmed state session command response after r h submits =
      elim (Bool-cases
        (confirmed command (setting.now consuming) (find state.confirmations session))) [
          | inl agreed ↦
              let e : delete state.confirmations session ≡ after.confirmations = ground arith in
              (
                rw (sym e) (find-delete_same state.confirmations session),
                granted session command state (setting.now consuming)
                    (find state.confirmations session) refl agreed,
              )
          | inr refused ↦ elim (Option-cases setting.random_token) [
            | inl empty ↦ absurd (ground arith)
            | inr (token, e) ↦ absurd (ground arith)
          ]
        ]

  found-eq-ok :
      (o : Outcome Response) (after : State) (r : Response)
      → found setting o ≡ (after, ok (some r))
      → o ≡ (after, ok r)
  found-eq-ok (s, ok q) after r h = ground arith
  found-eq-ok (s, err e) after r h = absurd (ground arith)

  module _ (state : State) (session command : Text) (after : State) (r : Response) where
    curated_risk-Confirmed :
        (from : Response)
        → is_submit from.action ≡ false
        → curated_risk setting state command session from ≡ (after, ok (some r))
        → is_submit r.action ≡ true
        → Confirmed state session command after
    unfolding curated_risk
    curated_risk-Confirmed from no_submit h submits = elim (Bool-cases (equal session [])) [
      | inl unnamed ↦ let same : from ≡ r = ground arith in absurd (cc)
      | inr named ↦
          ask_confirmation-Confirmed state session command from after r
            (found-eq-ok (ask_confirmation setting state session command from) after r
              (ground arith))
            submits
    ]

    curated_action-Confirmed :
        (stage : Stage) (from : Response)
        → is_submit from.action ≡ false
        → curated_action setting state command session stage from ≡ (after, ok (some r))
        → is_submit r.action ≡ true
        → Confirmed state session command after
    unfolding curated_action
    curated_action-Confirmed stage from no_submit h submits =
        let reached : (curated_risk setting state command session from ≡ (after, ok (some r)))
            ⊎ (is_submit r.action ≡ false) =
          ground arith in
        elim reached [
          | inl asked ↦ curated_risk-Confirmed from no_submit asked submits
          | inr no_submission ↦ absurd (cc)
        ]

    curated_response-submit :
        (m : RuntimeMatch) → is_submit (curated_response setting m).action ≡ false
    unfolding curated_response
    curated_response-submit m = refl

    curated_match-Confirmed :
        (shell_name : Text) (stage : Stage) (match : Result ServiceError (Option RuntimeMatch))
        → curated_match setting state shell_name command session stage match ≡ (after, ok (some r))
        → is_submit r.action ≡ true
        → Confirmed state session command after
    curated_match-Confirmed shell_name stage (err e) h submits = absurd (ground arith)
    curated_match-Confirmed shell_name stage (ok none) h submits = absurd (ground arith)
    curated_match-Confirmed shell_name stage (ok (some match)) h submits =
        curated_action-Confirmed stage (curated_response setting match)
          (curated_response-submit match) (ground arith) submits

    curated_decision-Confirmed :
        (shell_name : Text) (stage : Stage)
        → curated_decision setting state shell_name command session stage ≡ (after, ok (some r))
        → is_submit r.action ≡ true
        → Confirmed state session command after
    unfolding curated_decision
    curated_decision-Confirmed shell_name stage h submits =
        curated_match-Confirmed shell_name stage (setting.match_line command) (ground arith) submits

  module _ (state : State) (req : Request) (after : State) (r : Response) where
    confirm_interrupt-Confirmed :
        (result : Result ServiceError Response)
        → ((from : Response) → result ≡ ok from → is_submit from.action ≡ false)
        → confirm_interrupt setting state req result ≡ (after, ok r)
        → is_submit r.action ≡ true
        → Confirmed state req.session req.command after
    unfolding confirm_interrupt
    confirm_interrupt-Confirmed (err e) no_submit h submits = absurd (ground arith)
    confirm_interrupt-Confirmed (ok from) no_submit h submits =
        let never : is_submit from.action ≡ false = no_submit from refl in
        let reached : (ask_confirmation setting state req.session req.command from ≡ (after, ok r))
            ⊎ (from ≡ r) =
          ground arith in
        elim reached [
          | inl asked ↦
              ask_confirmation-Confirmed state req.session req.command from after r asked submits
          | inr same ↦ absurd (cc)
        ]

    engine_response-submit :
        (m : Result EngineError Decision) (from : Response)
        → engine_response setting m ≡ ok from
        → is_submit from.action ≡ false
    engine_response-submit (err e) from h = absurd (ground arith)
    engine_response-submit (ok d) from h =
        let same : response_of d ≡ from = ground arith in rw (sym same) (response_of-submit d)

    pub decision-submit :
        (shell_name command : Text) (stage : Stage) (from : Response)
        → decision setting shell_name command stage ≡ ok from
        → is_submit from.action ≡ false
    unfolding decision
    decision-submit shell_name command stage from h =
        engine_response-submit (setting.check_shell shell_name command stage) from h

    learned_decision-submit :
        (from : Response)
        → learned_decision setting.patterns setting.config setting.learned_rules req.command
          ≡ some from
        → is_submit from.action ≡ false
    unfolding learned_decision
    learned_decision-submit from h =
        first_rule-submit setting.patterns setting.config.learned_rule_action_ceiling
          (normalized_learning_command setting.patterns req.command).0 from setting.learned_rules
          (ground arith)

    after_learned-Confirmed :
        (o : Option Response)
        → ((from : Response) → o ≡ some from → is_submit from.action ≡ false)
        → after_learned setting state req o ≡ (after, ok r)
        → is_submit r.action ≡ true
        → Confirmed state req.session req.command after
    after_learned-Confirmed (some from) no_submit h submits =
        let never : is_submit from.action ≡ false = no_submit from refl in
        let same : from ≡ r = ground arith in absurd (cc)
    after_learned-Confirmed none no_submit h submits =
        confirm_interrupt-Confirmed (decision setting req.shell req.command pre)
          (decision-submit req.shell req.command pre) h submits

  module _ (state : State) (req : Request) (after : State) (r : Response) where
    after_curated-Confirmed :
        (o : Outcome (Option Response))
        → curated_decision setting state req.shell req.command req.session pre ≡ o
        → after_curated setting req o ≡ (after, ok r)
        → is_submit r.action ≡ true
        → Confirmed state req.session req.command after
    after_curated-Confirmed (s, err e) g h submits = absurd (ground arith)
    after_curated-Confirmed (s, ok (some q)) g h submits =
        curated_decision-Confirmed state req.session req.command after r req.shell pre
          (let same : (s, ok q) ≡ (after, ok r) = h in ground arith) submits
    after_curated-Confirmed (s, ok none) g h submits =
        let same : s ≡ state =
          curated_decision-none setting state req.session req.command s req.shell pre g in
        rw (sym same) (
          after_learned-Confirmed s req after r
            (learned_decision setting.patterns setting.config setting.learned_rules req.command)
            (learned_decision-submit s req after r) h submits)

    pub pre_send_response-Confirmed :
        pre_send_response setting state req ≡ (after, ok r)
        → is_submit r.action ≡ true
        → Confirmed state req.session req.command after
    unfolding pre_send_response
    pre_send_response-Confirmed h submits =
        elim (Bool-cases (shell_command_supported req.shell req.command)) [
          | inl supported ↦
              after_curated-Confirmed
                (curated_decision setting state req.shell req.command req.session pre) refl
                (ground arith) submits
          | inr refused ↦ absurd (ground arith)
        ]
