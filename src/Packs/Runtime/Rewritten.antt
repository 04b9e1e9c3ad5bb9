-- ===== src/Packs/Runtime/Rewritten.antt =====
-- The packs behind the service: which rules can rewrite a line by themselves.
use solomon.Prelude.{◌≡◌, Bool, false, some, List, [], ◌∷◌, Text, codes, elem, join_with}
use solomon.Diagnose.Risk.{Risk, safe}
use solomon.Daemon.Service.{Setting, packs_failed}
use solomon.Packs.Rules.{Pack, Found, Regexps, CompiledRule}
use solomon.Packs.Runtime.{RuntimePoll, RuntimePack, ids, whole, match_line}
use solomon.Packs.Runtime.Matched.{Some}

-- A rule that can rewrite: it is safe, keeps no tail, and its expression matches all the words
-- behind the command, whole.
pub record RewritesAll (regexps : Regexps) (command : Text) (arguments : List Text)
    (r : CompiledRule regexps) : Type 0 where
  pub same_command : r.rule.command ≡ command
  pub rule_safe : r.rule.risk ≡ safe
  pub no_tail : r.rule.preserve_tail ≡ false
  pub found : Found
  pub whole_line :
      whole
        (join_with (codes " ") arguments)
        (regexps.find r.pattern (join_with (codes " ") arguments))
      ≡ some found

module _ (regexps : Regexps) (cancelled : RuntimePoll → Bool)
    (resolver : List (RuntimePack regexps)) where
  -- The service with this resolver.
  abbrev pub with_packs : Setting → Setting
  with_packs setting = record setting {
    match_line = match_line regexps cancelled packs_failed resolver;
  }

  -- A rule of a pack that is not installed, for the first of the words.
  abbrev pub RewrittenBy : List Pack → List Text → Type 0
  RewrittenBy installed [] = ⊥
  RewrittenBy installed (command ∷ arguments) =
      Some
        (λ (p : RuntimePack regexps).
          (elem p.compiled.pack.id (ids installed) ≡ false)
          × Some (RewritesAll regexps command arguments) p.compiled.rules)
        resolver
