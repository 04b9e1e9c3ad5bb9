-- ===== src/Daemon/PreSend/Undecided.antt =====
-- Where curatedDecision decides nothing.
use solomon.Prelude.{
  ◌≡◌, ◌⊎◌, inl, inr, Option, none, some, [], arith, Bool-cases, Result, ok, err, Text, equal,
}
use solomon.Diagnose.Engine.Values.{Stage}
use solomon.Diagnose.Shells.{shell_command_supported}
use solomon.Daemon.Protocol.{Response}
use solomon.Daemon.Service.{ServiceError, RuntimeMatch, Setting, State, Outcome}
use solomon.Daemon.PreSend.{
  ask_confirmation, curated_response, curated_risk, curated_action, curated_decision, found,
  curated_match,
}

module _ (setting : Setting) where
  found-none : (o : Outcome Response) (after : State) → found setting o ≡ (after, ok none) → ⊥
  found-none (s, ok q) after h = ground arith
  found-none (s, err e) after h = ground arith

  -- Where the packs decide nothing, the state is as it was.
  module _ (state : State) (session command : Text) (after : State) where
    curated_risk-none :
        (from : Response) → curated_risk setting state command session from ≡ (after, ok none) → ⊥
    unfolding curated_risk
    curated_risk-none from h = elim (Bool-cases (equal session [])) [
      | inl unnamed ↦ ground arith
      | inr named ↦
          found-none (ask_confirmation setting state session command from) after (ground arith)
    ]

    curated_match-none :
        (shell_name : Text) (stage : Stage) (match : Result ServiceError (Option RuntimeMatch))
        → curated_match setting state shell_name command session stage match ≡ (after, ok none)
        → after ≡ state
    unfolding curated_action
    curated_match-none shell_name stage (err e) h = absurd (ground arith)
    curated_match-none shell_name stage (ok none) h = ground arith
    curated_match-none shell_name stage (ok (some match)) h =
        let reached : (curated_risk setting state command session (curated_response setting match)
              ≡ (after, ok none))
            ⊎ (after ≡ state) =
          ground arith in
        elim reached [
          | inl asked ↦ absurd (curated_risk-none (curated_response setting match) asked)
          | inr same ↦ same
        ]

    pub curated_decision-none :
        (shell_name : Text) (stage : Stage)
        → curated_decision setting state shell_name command session stage ≡ (after, ok none)
        → after ≡ state
    unfolding curated_decision
    curated_decision-none shell_name stage h =
        elim (Bool-cases (shell_command_supported shell_name command)) [
          | inl supported ↦
              curated_match-none shell_name stage (setting.match_line command) (ground arith)
          | inr refused ↦ ground arith
        ]
