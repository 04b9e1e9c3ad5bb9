-- ===== src/Daemon/PreSend/Asked.antt =====
-- A response with a confirmation token, and the confirmation that is stored with it.
use solomon.Prelude.{
  ◌≡◌, refl, sym, ◌∙◌, ◌⊎◌, inl, inr, Bool, true, false, not, ◌||◌, Option, none, some, List, [],
  ◌∷◌, arith, Bool-cases, Option-cases, Result, ok, err, Text, codes, equal,
}
use solomon.Redact.{Patterns}
use solomon.Config.Defs.{LearnedAction}
use solomon.Diagnose.Rank.{RepairClass, no_class, command_class, semantic_class, path_class}
use solomon.Diagnose.Decision.{Evidence, Decision}
use solomon.Diagnose.Engine.Values.{Stage, pre, EngineError}
use solomon.Diagnose.Shells.{shell_command_supported}
use solomon.Daemon.Tables.{Table}
use solomon.Daemon.Protocol.{Request, Response}
use solomon.Daemon.Tokens.{Confirmation, confirmed, consume_confirmation, store_confirmation}
use solomon.Daemon.Tables.{find}
use solomon.Daemon.Learning.{
  LearnedRule, first_rule, response_to, limited_learned_action, learned_decision,
  normalized_learning_command,
}
use solomon.Daemon.Service.{
  ServiceError, RuntimeMatch, consuming, storing, Setting, State, Outcome, response_of, by_class,
  note_evidence, note_all,
}
use solomon.Daemon.PreSend.{
  decision, ask_confirmation, curated_response, curated_risk, curated_action, curated_decision,
  confirm_interrupt, pre_send_response, found, after_curated, after_learned, engine_response,
  curated_match,
}

note_all-token :
    (r : Response) (es : List Evidence) → (note_all r es).confirmation_token ≡ r.confirmation_token
note_all-token r [] = refl
note_all-token r (e ∷ es) =
    let one : (note_evidence r e).confirmation_token ≡ r.confirmation_token = ground arith in
    note_all-token (note_evidence r e) es ∙ one

by_class-token :
    (c : RepairClass) (r : Response) (es : List Evidence)
    → (by_class c r es).confirmation_token ≡ r.confirmation_token
by_class-token semantic_class r es = note_all-token (record r { source = codes "curated" }) es
by_class-token no_class r es = refl
by_class-token command_class r es = refl
by_class-token path_class r es = refl

abbrev pub has_token : Response → Bool
has_token r = not (equal r.confirmation_token [])

response_of-token : (d : Decision) → has_token (response_of d) ≡ false
unfolding response_of equal
response_of-token d = rw (by_class-token d.class _ d.evidence) refl

response_to-token :
    (p : Patterns) (a : LearnedAction) (rule : LearnedRule) (from : Response)
    → response_to p a rule ≡ some from
    → has_token from ≡ false
unfolding equal
response_to-token p a rule from h = ground arith

first_rule-token :
    (p : Patterns) (ceiling : LearnedAction) (failure : Text) (from : Response)
    (rules : List LearnedRule)
    → first_rule p ceiling failure rules ≡ some from
    → has_token from ≡ false
unfolding first_rule
first_rule-token p ceiling failure from [] h = absurd (ground arith)
first_rule-token p ceiling failure from (rule ∷ rules) h =
    elim (Bool-cases (not rule.enabled || not (equal rule.failure failure))) [
      | inl passed ↦ first_rule-token p ceiling failure from rules (ground arith)
      | inr meets ↦
          response_to-token p (limited_learned_action rule.action ceiling) rule from (ground arith)
    ]

module _ (setting : Setting) where
  -- The confirmation of the response's token has just been stored, for a session that has a name.
  unfoldable pub Asked : Text → Text → State → Response → Type 0
  Asked session command after r =
      (equal session [] ≡ false)
      × ((t : Table Confirmation) × (after.confirmations
            ≡ store_confirmation session command r.confirmation_token (setting.now storing) t))

  module _ (state : State) (session command : Text) (after : State) (r : Response)
      (token : has_token r ≡ true) where
    ask_confirmation-Asked :
        (from : Response)
        → has_token from ≡ false
        → equal session [] ≡ false
        → ask_confirmation setting state session command from ≡ (after, ok r)
        → Asked session command after r
    unfolding ask_confirmation Asked consume_confirmation
    ask_confirmation-Asked from untold named h =
        elim (Bool-cases
          (confirmed command (setting.now consuming) (find state.confirmations session))) [
            | inl agreed ↦
                let same : from.confirmation_token ≡ r.confirmation_token = ground arith in
                absurd (cc)
            | inr refused ↦ elim (Option-cases setting.random_token) [
              | inl none_left ↦ absurd (ground arith)
              | inr (t, e) ↦ (
                named,
                (
                  (consume_confirmation session command (setting.now consuming)
                      state.confirmations).0,
                  ground arith,
                ),
              )
            ]
          ]

    found-eq-ok :
        (o : Outcome Response) → found setting o ≡ (after, ok (some r)) → o ≡ (after, ok r)
    found-eq-ok (s, ok q) h = ground arith
    found-eq-ok (s, err e) h = absurd (ground arith)

    curated_risk-Asked :
        (from : Response)
        → has_token from ≡ false
        → curated_risk setting state command session from ≡ (after, ok (some r))
        → Asked session command after r
    unfolding curated_risk
    curated_risk-Asked from untold h = elim (Bool-cases (equal session [])) [
      | inl unnamed ↦ let same : from ≡ r = ground arith in absurd (cc)
      | inr named ↦
          ask_confirmation-Asked from untold named
            (found-eq-ok (ask_confirmation setting state session command from) (ground arith))
    ]

    curated_action-Asked :
        (stage : Stage) (from : Response)
        → has_token from ≡ false
        → curated_action setting state command session stage from ≡ (after, ok (some r))
        → Asked session command after r
    unfolding curated_action
    curated_action-Asked stage from untold h =
        let reached : (curated_risk setting state command session from ≡ (after, ok (some r)))
            ⊎ (has_token r ≡ has_token from) =
          ground arith in
        elim reached [ inl asked ↦ curated_risk-Asked from untold asked | inr same ↦ absurd (cc) ]

    curated_match-Asked :
        (shell_name : Text) (stage : Stage) (match : Result ServiceError (Option RuntimeMatch))
        → curated_match setting state shell_name command session stage match ≡ (after, ok (some r))
        → Asked session command after r
    unfolding curated_response equal
    curated_match-Asked shell_name stage (err e) h = absurd (ground arith)
    curated_match-Asked shell_name stage (ok none) h = absurd (ground arith)
    curated_match-Asked shell_name stage (ok (some match)) h =
        curated_action-Asked stage (curated_response setting match) refl (ground arith)

    curated_decision-Asked :
        (shell_name : Text) (stage : Stage)
        → curated_decision setting state shell_name command session stage ≡ (after, ok (some r))
        → Asked session command after r
    unfolding curated_decision
    curated_decision-Asked shell_name stage h =
        curated_match-Asked shell_name stage (setting.match_line command) (ground arith)

    confirm_interrupt-Asked :
        (req : Request) (result : Result ServiceError Response)
        → req.session ≡ session
        → req.command ≡ command
        → ((from : Response) → result ≡ ok from → has_token from ≡ false)
        → confirm_interrupt setting state req result ≡ (after, ok r)
        → Asked session command after r
    unfolding confirm_interrupt
    confirm_interrupt-Asked req (err e) s c untold h = absurd (ground arith)
    confirm_interrupt-Asked req (ok from) s c untold h =
        let never : has_token from ≡ false = untold from refl in
        elim (Bool-cases (equal req.session [])) [
          | inl unnamed ↦ let same : from ≡ r = ground arith in absurd (cc)
          | inr named ↦
              let reached : (ask_confirmation setting state req.session req.command from
                    ≡ (after, ok r))
                  ⊎ (from ≡ r) =
                ground arith in
              elim reached [
                | inl asked ↦ ask_confirmation-Asked from never (rw s at named) (rw (s, c) at asked)
                | inr same ↦ absurd (cc)
              ]
        ]

  engine_response-token :
      (m : Result EngineError Decision) (from : Response)
      → engine_response setting m ≡ ok from
      → has_token from ≡ false
  engine_response-token (err e) from h = absurd (ground arith)
  engine_response-token (ok d) from h =
      let same : response_of d ≡ from = ground arith in rw (sym same) (response_of-token d)

  learned_decision-token :
      (command : Text) (from : Response)
      → learned_decision setting.patterns setting.config setting.learned_rules command ≡ some from
      → has_token from ≡ false
  unfolding learned_decision
  learned_decision-token command from h =
      first_rule-token setting.patterns setting.config.learned_rule_action_ceiling
        (normalized_learning_command setting.patterns command).0 from setting.learned_rules
        (ground arith)

  module _ (req : Request) (after : State) (r : Response) (token : has_token r ≡ true) where
    after_learned-Asked :
        (state : State) (o : Option Response)
        → ((from : Response) → o ≡ some from → has_token from ≡ false)
        → after_learned setting state req o ≡ (after, ok r)
        → Asked req.session req.command after r
    unfolding decision
    after_learned-Asked state (some from) untold h =
        let never : has_token from ≡ false = untold from refl in
        let same : from ≡ r = ground arith in absurd (cc)
    after_learned-Asked state none untold h =
        confirm_interrupt-Asked state req.session req.command after r token req
          (decision setting req.shell req.command pre) refl refl
          (engine_response-token (setting.check_shell req.shell req.command pre)) h

    after_curated-Asked :
        (state : State) (o : Outcome (Option Response))
        → curated_decision setting state req.shell req.command req.session pre ≡ o
        → after_curated setting req o ≡ (after, ok r)
        → Asked req.session req.command after r
    after_curated-Asked state (s, err e) g h = absurd (ground arith)
    after_curated-Asked state (s, ok (some q)) g h =
        curated_decision-Asked state req.session req.command after r token req.shell pre
          (let same : (s, ok q) ≡ (after, ok r) = h in ground arith)
    after_curated-Asked state (s, ok none) g h =
        after_learned-Asked s
          (learned_decision setting.patterns setting.config setting.learned_rules req.command)
          (learned_decision-token req.command) h

    pub pre_send_response-Asked :
        (state : State)
        → pre_send_response setting state req ≡ (after, ok r)
        → Asked req.session req.command after r
    unfolding pre_send_response equal
    pre_send_response-Asked state h =
        elim (Bool-cases (shell_command_supported req.shell req.command)) [
          | inl supported ↦
              after_curated-Asked state
                (curated_decision setting state req.shell req.command req.session pre) refl
                (ground arith)
          | inr refused ↦ absurd (ground arith)
        ]
