-- ===== src/Diagnose/Engine/Modes/Rewrites.antt =====
-- What finishDecision lets through: the rewrites, and the size of a decision.
use solomon.Prelude.{
  ◌≤◌, ◌≡◌, refl, sym, ◌⊎◌, inl, inr, Bool, true, false, not, ◌&&◌, ◌||◌, Option, none, some, [],
  arith, ltb, Bool-cases, ok, Text, equal,
}
use solomon.Config.Defs.{Config, is_mode_rewrite, is_mode_interrupt}
use solomon.Diagnose.Rank.{at_least, meets_confidence_threshold}
use solomon.Diagnose.Shells.{rewrite_compatible}
use solomon.Diagnose.Replace.{replace_token_occurrence}
use solomon.Diagnose.Decision.{
  Action, interrupt_action, Decision, no_decision, decision_output_size,
}
use solomon.Diagnose.Engine.Values.{Stage, Limits, World}
use solomon.Diagnose.Engine.Modes.{
  semantic_rewrite_allowed, is_safe, intrinsic_rewrite_eligible, is_pre, safe_auto_apply,
  should_interrupt, apply_mode, is_rewrite, downgrade, with_buffer, fill_buffer, finish,
}

-- What a decision that rewrites the buffer rests on.
pub record MayRewrite (config : Config) (shell_name line : Text) (stage : Stage) (d : Decision)
    : Type 0 where
  pub mode_rewrite : is_mode_rewrite config.mode ≡ true
  pub opted_in : config.auto_apply_safe ≡ true
  pub before_submission : is_pre stage ≡ true
  pub risk_safe : is_safe d.risk ≡ true
  pub confident : at_least d.confidence 80 ≡ true
  pub complete : d.incomplete ≡ false
  pub bundled : semantic_rewrite_allowed d ≡ true
  pub compatible : rewrite_compatible shell_name line ≡ true

module _ (config : Config) (shell_name line : Text) (stage : Stage) (d : Decision) where
  apply_mode-MayRewrite :
      is_rewrite (downgrade shell_name line (apply_mode config d stage)).action ≡ true
      → MayRewrite config shell_name line stage
          (downgrade shell_name line (apply_mode config d stage))
  unfolding downgrade apply_mode safe_auto_apply intrinsic_rewrite_eligible semantic_rewrite_allowed
  apply_mode-MayRewrite h = ground arith

-- A result of fill_buffer is the decision itself, noDecision, or the decision with the line that
-- replaceTokenOccurrence gives, which is within the limit of the output.
data Filled (line : Text) (d : Decision) (l : Limits) : Decision → Type 0 where
  unchanged : Filled line d l d
  nothing : Filled line d l no_decision
  replaced :
      (buffer : Text)
      → replace_token_occurrence line d.original d.replacement d.occurrence ≡ some buffer
      → ltb l.output_bytes (decision_output_size (record d { suggestion = buffer })) ≡ false
      → Filled line d l (record d { suggestion = buffer })

with_buffer-Filled :
    (line : Text) (d : Decision) (l : Limits) (r : Decision) (b : Option Text)
    → replace_token_occurrence line d.original d.replacement d.occurrence ≡ b
    → with_buffer b d l ≡ ok r
    → Filled line d l r
with_buffer-Filled line d l r none e h = let same : no_decision ≡ r = cc in rw (sym same) nothing
with_buffer-Filled line d l r (some buffer) e h =
    elim (Bool-cases
      (ltb l.output_bytes (decision_output_size (record d { suggestion = buffer })))) [
        | inl large ↦ cc
        | inr small ↦
            let same : record d { suggestion = buffer } ≡ r = cc in
            rw (sym same) (replaced buffer e small)
      ]

fill_buffer-Filled :
    (line : Text) (d : Decision) (l : Limits) (r : Decision)
    → fill_buffer line d l ≡ ok r
    → Filled line d l r
unfolding fill_buffer
fill_buffer-Filled line d l r h =
    elim (Bool-cases
      (is_rewrite d.action && not (equal d.original []) && not (equal d.replacement []))) [
        | inl rewrites ↦
            with_buffer-Filled line d l r
              (replace_token_occurrence line d.original d.replacement d.occurrence) refl (cc)
        | inr keeps ↦ let same : d ≡ r = cc in rw (sym same) unchanged
      ]

-- What a decision that interrupts rests on.
pub record MayInterrupt (config : Config) (stage : Stage) (d : Decision) : Type 0 where
  pub mode_interrupt :
      (is_mode_interrupt config.mode || is_mode_rewrite config.mode && config.risk_interrupt) ≡ true
  pub before_submission : is_pre stage ≡ true
  pub confident : at_least d.confidence 90 ≡ true
  pub meets_threshold : meets_confidence_threshold d.class d.confidence ≡ true
  pub complete : d.incomplete ≡ false

abbrev pub is_interrupt : Action → Bool
is_interrupt interrupt_action = true
is_interrupt _ = false

module _ (config : Config) (shell_name line : Text) (stage : Stage) (d : Decision) where
  apply_mode-MayInterrupt :
      is_interrupt (downgrade shell_name line (apply_mode config d stage)).action ≡ true
      → MayInterrupt config stage (downgrade shell_name line (apply_mode config d stage))
  unfolding downgrade apply_mode safe_auto_apply should_interrupt
  apply_mode-MayInterrupt h = ground arith

  apply_mode_size :
      decision_output_size (downgrade shell_name line (apply_mode config d stage))
      ≡ decision_output_size d
  unfolding downgrade apply_mode decision_output_size
  apply_mode_size = ground arith

module _ (world : World) (config : Config) (shell_name line : Text) (stage : Stage) (l : Limits)
    (d : Decision) (r : Decision) where
  finish-eq-ok :
      finish world config d shell_name line stage l ≡ ok r
      → (ltb l.output_bytes (decision_output_size d) ≡ false)
        × (ltb l.analysis_time world.elapsed ≡ false)
        × (fill_buffer line (downgrade shell_name line (apply_mode config d stage)) l ≡ ok r)
  unfolding finish
  finish-eq-ok h = ground arith

MayRewrite-Filled :
    (config : Config) (shell_name line : Text) (stage : Stage) (l : Limits) {d r : Decision}
    → Filled line d l r
    → (is_rewrite d.action ≡ true → MayRewrite config shell_name line stage d)
    → is_rewrite r.action ≡ true
    → MayRewrite config shell_name line stage r
unfolding semantic_rewrite_allowed
MayRewrite-Filled config shell_name line stage l unchanged may h = may h
MayRewrite-Filled config shell_name line stage l nothing may h = cc
MayRewrite-Filled config shell_name line stage l (replaced buffer e small) may h =
    let m = may h in
    record {
      mode_rewrite = m.mode_rewrite;
      opted_in = m.opted_in;
      before_submission = m.before_submission;
      risk_safe = m.risk_safe;
      confident = m.confident;
      complete = m.complete;
      bundled = m.bundled;
      compatible = m.compatible;
    }

MayInterrupt-Filled :
    (config : Config) (line : Text) (stage : Stage) (l : Limits) {d r : Decision}
    → Filled line d l r
    → (is_interrupt d.action ≡ true → MayInterrupt config stage d)
    → is_interrupt r.action ≡ true
    → MayInterrupt config stage r
MayInterrupt-Filled config line stage l unchanged may h = may h
MayInterrupt-Filled config line stage l nothing may h = cc
MayInterrupt-Filled config line stage l (replaced buffer e small) may h =
    let m = may h in
    record {
      mode_interrupt = m.mode_interrupt;
      before_submission = m.before_submission;
      confident = m.confident;
      meets_threshold = m.meets_threshold;
      complete = m.complete;
    }

size-Filled :
    (line : Text) (l : Limits) {d r : Decision}
    → Filled line d l r
    → ltb l.output_bytes (decision_output_size d) ≡ false
    → (r ≡ no_decision) ⊎ (decision_output_size r ≤ l.output_bytes)
size-Filled line l unchanged h = inr (ground arith)
size-Filled line l nothing h = inl refl
size-Filled line l (replaced buffer e small) h = inr (ground arith)

abbrev pub buffer_of : Text → Decision → Option Text
buffer_of line d = replace_token_occurrence line d.original d.replacement d.occurrence

-- Has the decision a word to look for in the line, and one to put in its place?
abbrev pub names_words : Decision → Bool
names_words d = not (equal d.original []) && not (equal d.replacement [])

with_buffer-buffer_of :
    (line : Text) (d : Decision) (l : Limits) (r : Decision) (b : Option Text)
    → buffer_of line d ≡ b
    → with_buffer b d l ≡ ok r
    → is_rewrite r.action ≡ true
    → buffer_of line r ≡ some r.suggestion
with_buffer-buffer_of line d l r none e h rewrites = let same : no_decision ≡ r = cc in cc
with_buffer-buffer_of line d l r (some buffer) e h rewrites =
    elim (Bool-cases
      (ltb l.output_bytes (decision_output_size (record d { suggestion = buffer })))) [
        | inl large ↦ cc
        | inr small ↦ let same : record d { suggestion = buffer } ≡ r = cc in rw (sym same) e
      ]

fill_buffer-buffer_of :
    (line : Text) (d : Decision) (l : Limits) (r : Decision)
    → fill_buffer line d l ≡ ok r
    → is_rewrite r.action ≡ true
    → names_words r ≡ true
    → buffer_of line r ≡ some r.suggestion
unfolding fill_buffer
fill_buffer-buffer_of line d l r h rewrites words =
    elim (Bool-cases
      (is_rewrite d.action && not (equal d.original []) && not (equal d.replacement []))) [
        | inl both ↦ with_buffer-buffer_of line d l r (buffer_of line d) refl (cc) rewrites
        | inr neither ↦ let same : d ≡ r = cc in absurd (ground arith)
      ]

module _ (world : World) (config : Config) (shell_name line : Text) (stage : Stage) (l : Limits)
    (d : Decision) (r : Decision) (h : finish world config d shell_name line stage l ≡ ok r) where
  filled : Filled line (downgrade shell_name line (apply_mode config d stage)) l r
  filled =
      fill_buffer-Filled line (downgrade shell_name line (apply_mode config d stage)) l r
        (finish-eq-ok world config shell_name line stage l d r h).2

  pub finish-MayRewrite : is_rewrite r.action ≡ true → MayRewrite config shell_name line stage r
  finish-MayRewrite =
      MayRewrite-Filled config shell_name line stage l filled
        (apply_mode-MayRewrite config shell_name line stage d)

  pub finish-MayInterrupt : is_interrupt r.action ≡ true → MayInterrupt config stage r
  finish-MayInterrupt =
      MayInterrupt-Filled config line stage l filled
        (apply_mode-MayInterrupt config shell_name line stage d)

  pub finish_size : (r ≡ no_decision) ⊎ (decision_output_size r ≤ l.output_bytes)
  finish_size = size-Filled line l filled (
      let (small, in_time, e) = finish-eq-ok world config shell_name line stage l d r h in
      rw (apply_mode_size config shell_name line stage d) small)

  pub finish-buffer_of :
      is_rewrite r.action ≡ true → names_words r ≡ true → buffer_of line r ≡ some r.suggestion
  finish-buffer_of =
      fill_buffer-buffer_of line (downgrade shell_name line (apply_mode config d stage)) l r
        (finish-eq-ok world config shell_name line stage l d r h).2
