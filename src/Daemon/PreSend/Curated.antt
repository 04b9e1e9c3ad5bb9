-- ===== src/Daemon/PreSend/Curated.antt =====
-- What the service does with a match of the packs.
use solomon.Prelude.{
  ◌≡◌, refl, sym, ◌∙◌, inl, inr, Bool, true, false, some, [], arith, if◌then◌else◌, Bool-cases, ok,
  err, Text, codes, equal, equal_iff, fields,
}
use solomon.Config.Defs.{is_mode_rewrite}
use solomon.Redact
use solomon.Diagnose.Engine.Values.{Stage}
use solomon.Daemon.Protocol.{Response}
use solomon.Daemon.Service.{RuntimeMatch, Setting, State, Outcome, is_rewrite}
use solomon.Daemon.PreSend.{
  ask_confirmation, is_installed, curated_response, is_pre, found, curated_risk, curated_action,
  curated_match,
}

-- What a rewrite by a pack rests on.
pub record MayApply (setting : Setting) (stage : Stage) (match : RuntimeMatch) (r : Response)
    : Type 0 where
  pub mode_rewrite : is_mode_rewrite setting.config.mode ≡ true
  pub opted_in : setting.config.auto_apply_safe ≡ true
  pub before_submission : is_pre setting stage ≡ true
  pub risk_safe : r.risk ≡ codes "safe"
  pub bundled : is_installed setting match ≡ false
  pub match_safe : match.risk ≡ codes "safe"
  pub secret_free : (Redact.command setting.patterns (fields match.suggestion)).1 ≡ false

secret_not_safe :
    (has_secret : Bool) (risk : Text)
    → equal (if has_secret then codes "high" else risk) (codes "safe") ≡ true
    → has_secret ≡ false
unfolding equal
secret_not_safe true risk h = absurd (cc)
secret_not_safe false risk h = refl

risk_of_match :
    (has_secret : Bool) (risk : Text)
    → (if has_secret then codes "high" else risk) ≡ codes "safe"
    → has_secret ≡ false
    → risk ≡ codes "safe"
risk_of_match true risk h e = absurd (cc)
risk_of_match false risk h e = h

-- An eligible repair is a bundled pack's, and safe.
curated_response-eligible :
    (setting : Setting) (match : RuntimeMatch)
    → (curated_response setting match).rewrite_eligible ≡ true
    → (is_installed setting match ≡ false)
      × ((Redact.command setting.patterns (fields match.suggestion)).1 ≡ false)
      × ((curated_response setting match).risk ≡ codes "safe")
unfolding curated_response
curated_response-eligible setting match h =
    let (_, secret) = Redact.command setting.patterns (fields match.suggestion) in
    let safe : equal (if secret then codes "high" else match.risk) (codes "safe") ≡ true =
      ground arith in
    (ground arith, secret_not_safe secret match.risk safe, (equal_iff _ _).0 safe)

module _ (setting : Setting) (state : State) (session command : Text) (after : State)
    (r : Response) where
  ask_confirmation-rewrite :
      (from q : Response)
      → is_rewrite from.action ≡ false
      → ask_confirmation setting state session command from ≡ (after, ok q)
      → is_rewrite q.action ≡ false
  unfolding ask_confirmation
  ask_confirmation-rewrite from q never h = ground arith

  found-rewrite :
      (o : Outcome Response)
      → ((q : Response) → o ≡ (after, ok q) → is_rewrite q.action ≡ false)
      → found setting o ≡ (after, ok (some r))
      → is_rewrite r.action ≡ false
  found-rewrite (s, ok q) never h = never r (ground arith)
  found-rewrite (s, err e) never h = absurd (ground arith)

  curated_risk-rewrite :
      (from : Response)
      → is_rewrite from.action ≡ false
      → curated_risk setting state command session from ≡ (after, ok (some r))
      → is_rewrite r.action ≡ false
  unfolding curated_risk
  curated_risk-rewrite from never h = elim (Bool-cases (equal session [])) [
    | inl unnamed ↦ let same : from ≡ r = ground arith in rw (sym same) never
    | inr named ↦
        found-rewrite (ask_confirmation setting state session command from)
          (λ q e. ask_confirmation-rewrite from q never e) (ground arith)
  ]

  -- A repair that the service rewrites by itself was eligible for it.
  curated_action-rewrite :
      (stage : Stage) (from : Response)
      → is_rewrite from.action ≡ false
      → curated_action setting state command session stage from ≡ (after, ok (some r))
      → is_rewrite r.action ≡ true
      → (is_pre setting stage ≡ true)
        × (from.rewrite_eligible ≡ true)
        × (is_mode_rewrite setting.config.mode ≡ true)
        × (setting.config.auto_apply_safe ≡ true)
        × (from.risk ≡ r.risk)
  unfolding curated_action
  curated_action-rewrite stage from never h rewrites =
      let asked = curated_risk-rewrite from never in ground arith

  -- An action of the packs that rewrites the buffer is taken only in rewrite mode with
  -- auto_apply_safe, before the submission, on the match of a pack that is not an installed one,
  -- for a repair of safe risk that holds no secret.
  pub curated_match-MayApply :
      (shell_name : Text) (stage : Stage) (match : RuntimeMatch)
      → curated_match setting state shell_name command session stage (ok (some match))
        ≡ (after, ok (some r))
      → is_rewrite r.action ≡ true
      → MayApply setting stage match r
  unfolding curated_response
  curated_match-MayApply shell_name stage match h rewrites =
      let (early, eligible, mode, opted, risk) =
        curated_action-rewrite stage (curated_response setting match) refl (ground arith)
          rewrites in
      let (bundled, secret_free, safe) = curated_response-eligible setting match eligible in
      record {
        mode_rewrite = mode;
        opted_in = opted;
        before_submission = early;
        risk_safe = sym risk ∙ safe;
        bundled = bundled;
        match_safe = risk_of_match _ match.risk safe secret_free;
        secret_free = secret_free;
      }
