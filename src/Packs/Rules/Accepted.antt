-- ===== src/Packs/Rules/Accepted.antt =====
-- What holds of a pack that Pack.Validate and CheckCompatibility accept.
use Prim.Native.Nat.{Ordering}
use solomon.Prelude.{
  ◌≡◌, refl, Bool, true, false, not, ◌&&◌, ◌||◌, Option, none, some, List, [], ◌∷◌, arith, ok,
  guard, >>=-eq-ok, All, Text, equal,
}
use solomon.Packs.Templates.{safe_transformation_template}
use solomon.Packs.State.{identifier}
use solomon.Packs.Versions.{semantic_version, compare_version}
use solomon.Packs.Versions.Sound.{composes_option, compare_version-composes}
use solomon.Packs.Rules.{
  Rule, Pack, Regexps, PackError, is_high, is_known, or_error, validate_rule, validate_rules,
  validate_pack, validate_compatibility_metadata, needs_at_least, check_engine, check_compatibility,
  CompiledRule, CompiledPack, compile_rules, compile, engine_version,
}

-- What a rule of a loaded pack satisfies.
pub record IsSound (regexps : Regexps) (rule : Rule) : Type 0 where
  pub template_safe : safe_transformation_template rule.replacement ≡ true
  pub risk_known : is_known rule.risk ≡ true
  pub tail_high : (not rule.preserve_tail || is_high rule.risk) ≡ true

guard-ok : {E : Type 0} (b : Bool) (e : E) → guard b e ≡ ok tt → b ≡ true
guard-ok true e h = refl
guard-ok false e h = absurd (cc)

or_error-ok {ℓ} :
    {A : Type ℓ} (e : PackError) (o : Option A) (a : A) → or_error e o ≡ ok a → o ≡ some a
or_error-ok e none a h = absurd (cc)
or_error-ok e (some b) a h = cc

module _ (regexps : Regexps) where
  validate_rule-IsSound :
      (seen : List Text) (rule : Rule)
      → validate_rule regexps seen rule ≡ ok tt
      → IsSound regexps rule
  unfolding validate_rule
  validate_rule-IsSound seen rule h = record {
    template_safe = ground arith;
    risk_known = ground arith;
    tail_high = ground arith;
  }

  validate_rules-IsSound :
      (seen : List Text) (rules : List Rule)
      → validate_rules regexps seen rules ≡ ok tt
      → All (IsSound regexps) rules
  unfolding validate_rules
  validate_rules-IsSound seen [] h = tt
  validate_rules-IsSound seen (rule ∷ rules) h =
      let (_, first, rest) = >>=-eq-ok (validate_rule regexps seen rule) _ h in
      (validate_rule-IsSound seen rule first, validate_rules-IsSound (rule.id ∷ seen) rules rest)

  validate_pack-IsSound :
      (p : Pack) → validate_pack regexps p ≡ ok tt → All (IsSound regexps) p.rules
  unfolding validate_pack
  validate_pack-IsSound p h = validate_rules-IsSound [] p.rules (ground arith)

  -- Every rule of a compiled pack is sound, and has the compiled form of its own expression.
  abbrev pub IsSoundRule : CompiledRule regexps → Type 0
  IsSoundRule r = IsSound regexps r.rule × (regexps.compile r.rule.pattern ≡ some r.pattern)

  compile_rules-IsSoundRule :
      (rules : List Rule) (compiled : List (CompiledRule regexps))
      → All (IsSound regexps) rules
      → compile_rules regexps rules ≡ ok compiled
      → All IsSoundRule compiled
  unfolding compile_rules
  compile_rules-IsSoundRule [] [] s h = tt
  compile_rules-IsSoundRule [] (c ∷ compiled) s h = absurd (cc)
  compile_rules-IsSoundRule (rule ∷ rules) compiled s h =
      let (pattern, first, behind) =
        >>=-eq-ok (or_error PackError.bad_compiled_pattern (regexps.compile rule.pattern)) _ h in
      let (rest, compiled_rest, done) = >>=-eq-ok (compile_rules regexps rules) _ behind in
      let same : compiled ≡ record { rule = rule; pattern = pattern } ∷ rest = cc in
      rw same (
        (s.0, or_error-ok _ _ pattern first),
        compile_rules-IsSoundRule rules rest s.1 compiled_rest,
      )

  pub compile-IsSoundRule :
      (p : Pack) (c : CompiledPack regexps)
      → compile regexps p ≡ ok c
      → (c.pack ≡ p) × All IsSoundRule c.rules
  unfolding compile check_compatibility
  compile-IsSoundRule p c h =
      let (_, checked, behind) = >>=-eq-ok (check_compatibility regexps p engine_version) _ h in
      let (_, valid, _) = >>=-eq-ok (validate_pack regexps p) _ checked in
      let (rules, compiled, done) = >>=-eq-ok (compile_rules regexps p.rules) _ behind in
      let same : c ≡ record { pack = p; rules = rules } = cc in
      rw same
        (refl, compile_rules-IsSoundRule p.rules rules (validate_pack-IsSound p valid) compiled)

  validate_pack_identity :
      (p : Pack)
      → validate_pack regexps p ≡ ok tt
      → (identifier p.id && semantic_version p.version) ≡ true
  unfolding validate_pack
  validate_pack_identity p h = ground arith

  pub compile_identity :
      (p : Pack) (c : CompiledPack regexps)
      → compile regexps p ≡ ok c
      → (identifier p.id && semantic_version p.version) ≡ true
  unfolding compile check_compatibility
  compile_identity p c h =
      let (_, checked, _) = >>=-eq-ok (check_compatibility regexps p engine_version) _ h in
      let (_, valid, _) = >>=-eq-ok (validate_pack regexps p) _ checked in
      validate_pack_identity p valid

abbrev pub is_at_least : Option Ordering → Bool
is_at_least none = false
is_at_least (some Ordering.lt) = false
is_at_least (some o) = true

-- Is the first version the second one, or a later one?
abbrev pub at_least : Text → Text → Bool
at_least newer older = is_at_least (compare_version newer older)

needs_at_least-is_at_least :
    (minimum : Text) (o : Option Ordering) → needs_at_least minimum o ≡ ok tt → is_at_least o ≡ true
needs_at_least-is_at_least minimum none h = absurd (cc)
needs_at_least-is_at_least minimum (some Ordering.lt) h = absurd (cc)
needs_at_least-is_at_least minimum (some Ordering.eq) h = refl
needs_at_least-is_at_least minimum (some Ordering.gt) h = refl

is_at_least-needs_at_least :
    (minimum : Text) (o : Option Ordering) → is_at_least o ≡ true → needs_at_least minimum o ≡ ok tt
is_at_least-needs_at_least minimum none h = absurd (cc)
is_at_least-needs_at_least minimum (some Ordering.lt) h = absurd (cc)
is_at_least-needs_at_least minimum (some Ordering.eq) h = refl
is_at_least-needs_at_least minimum (some Ordering.gt) h = refl

is_at_least-composes :
    (a b c : Option Ordering)
    → composes_option a b c ≡ true
    → is_at_least a ≡ true
    → is_at_least b ≡ true
    → is_at_least c ≡ true
is_at_least-composes (some Ordering.eq) (some Ordering.eq) (some Ordering.eq) h p q = refl
is_at_least-composes (some Ordering.eq) (some Ordering.gt) (some Ordering.gt) h p q = refl
is_at_least-composes (some Ordering.gt) (some Ordering.eq) (some Ordering.gt) h p q = refl
is_at_least-composes (some Ordering.gt) (some Ordering.gt) (some Ordering.gt) h p q = refl
is_at_least-composes a b c h p q = absurd (cc)

at_least_trans :
    (a b c : Text)
    → semantic_version a ≡ true
    → semantic_version b ≡ true
    → semantic_version c ≡ true
    → at_least a b ≡ true
    → at_least b c ≡ true
    → at_least a c ≡ true
at_least_trans a b c ha hb hc p q =
    is_at_least-composes _ _ _ (compare_version-composes a b c ha hb hc) p q

check_engine_mono :
    (e e' minimum : Text)
    → (equal minimum [] || semantic_version minimum) ≡ true
    → semantic_version e ≡ true
    → semantic_version e' ≡ true
    → at_least e' e ≡ true
    → check_engine e minimum ≡ ok tt
    → check_engine e' minimum ≡ ok tt
unfolding check_engine equal
check_engine_mono e e' [] valid he he' newer h = refl
check_engine_mono e e' (c ∷ minimum) valid he he' newer h =
    is_at_least-needs_at_least _ _
      (at_least_trans e' e (c ∷ minimum) he' he valid newer (needs_at_least-is_at_least _ _ h))

-- A pack that is compatible with an engine is compatible with every engine of the same or a later
-- version.
pub check_compatibility_mono :
    (regexps : Regexps) (p : Pack) (e e' : Text)
    → semantic_version e' ≡ true
    → at_least e' e ≡ true
    → check_compatibility regexps p e ≡ ok tt
    → check_compatibility regexps p e' ≡ ok tt
unfolding check_compatibility validate_pack validate_compatibility_metadata
check_compatibility_mono regexps p e e' he' newer h =
    let min_valid : (equal p.min_engine_version [] || semantic_version p.min_engine_version)
        ≡ true =
      ground arith in
    let he : semantic_version e ≡ true = ground arith in
    let engine : check_engine e p.min_engine_version ≡ ok tt = ground arith in
    let engine' = check_engine_mono e e' p.min_engine_version min_valid he he' newer engine in
    ground arith
