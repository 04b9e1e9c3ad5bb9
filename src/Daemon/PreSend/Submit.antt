-- ===== src/Daemon/PreSend/Submit.antt =====
-- What the responses of the engine and of the learned rules never are: a submission.
use solomon.Prelude.{
  ◌≡◌, refl, ◌∙◌, inl, inr, Bool, true, false, not, ◌||◌, some, List, [], ◌∷◌, arith, Bool-cases,
  Text, codes, equal,
}
use solomon.Redact.{Patterns}
use solomon.Config.Defs.{LearnedAction}
use solomon.Diagnose.Rank.{RepairClass, no_class, command_class, semantic_class, path_class}
use solomon.Diagnose.Decision
use solomon.Diagnose.Decision.{Evidence, Decision}
use solomon.Daemon.Protocol.{Action, submit_action, Response}
use solomon.Daemon.Learning.{LearnedRule, first_rule, response_to, limited_learned_action}
use solomon.Daemon.Service.{response_of, by_class, action_of, note_evidence, note_all}

abbrev pub is_submit : Action → Bool
is_submit submit_action = true
is_submit _ = false

note_all-action : (r : Response) (es : List Evidence) → (note_all r es).action ≡ r.action
note_all-action r [] = refl
note_all-action r (e ∷ es) =
    let one : (note_evidence r e).action ≡ r.action = ground arith in
    note_all-action (note_evidence r e) es ∙ one

by_class-action :
    (c : RepairClass) (r : Response) (es : List Evidence) → (by_class c r es).action ≡ r.action
by_class-action semantic_class r es = note_all-action (record r { source = codes "curated" }) es
by_class-action no_class r es = refl
by_class-action command_class r es = refl
by_class-action path_class r es = refl

action_of-submit : (a : Decision.Action) → is_submit (action_of a) ≡ false
action_of-submit a = ground arith

pub response_of-submit : (d : Decision) → is_submit (response_of d).action ≡ false
unfolding response_of
response_of-submit d = rw (by_class-action d.class _ d.evidence) (action_of-submit d.action)

response_to-submit :
    (p : Patterns) (a : LearnedAction) (rule : LearnedRule) (from : Response)
    → response_to p a rule ≡ some from
    → is_submit from.action ≡ false
response_to-submit p a rule from h = ground arith

pub first_rule-submit :
    (p : Patterns) (ceiling : LearnedAction) (failure : Text) (from : Response)
    (rules : List LearnedRule)
    → first_rule p ceiling failure rules ≡ some from
    → is_submit from.action ≡ false
unfolding first_rule
first_rule-submit p ceiling failure from [] h = absurd (ground arith)
first_rule-submit p ceiling failure from (rule ∷ rules) h =
    elim (Bool-cases (not rule.enabled || not (equal rule.failure failure))) [
      | inl passed ↦ first_rule-submit p ceiling failure from rules (ground arith)
      | inr meets ↦
          response_to-submit p (limited_learned_action rule.action ceiling) rule from (ground arith)
    ]
