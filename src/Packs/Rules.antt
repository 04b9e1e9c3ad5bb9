-- ===== src/Packs/Rules.antt =====
-- The data of packs in internal/packs/packs.go, Pack.Validate, the compatibility of
-- compatibility.go and schema.go, and Compile of compiler.go.
pub mod Accepted
use Prim.Native.Nat.{Ordering}
use solomon.Prelude.{
  ℕ, ◌<◌, Bool, true, false, not, ◌&&◌, ◌||◌, Option, none, some, List, [], ◌∷◌, ltb, ◌==◌,
  if◌then◌else◌, Result, ok, err, ◌>>=◌, ◌>>◌, guard, Text, codes, equal, elem,
}
use solomon.Diagnose.Risk.{Risk, safe, unknown, high, other}
use solomon.Packs.Templates.{
  TemplateError, safe_transformation_template, validate_transformation_template,
  validate_explanation_template, validate_risk_metadata,
}
use solomon.Packs.State.{identifier}
use solomon.Packs.Versions.{semantic_version, compare_version}

-- A version below 1 stands for every number below it.
pub record Rule : Type 0 where
  pub id : Text
  pub command : Text
  pub pattern : Text
  pub replacement : Text
  pub preserve_tail : Bool
  pub cause : Text
  pub risk : Risk
  pub risk_rationale : Text

pub record Pack : Type 0 where
  pub schema_version : ℕ
  pub id : Text
  pub version : Text
  pub publisher : Text
  pub min_engine_version : Text
  pub capabilities : List Text
  pub rules : List Rule

-- What the package regexp does with expressions: it compiles them, counts their groups, finds
-- where the first match starts and ends with its groups, and puts the groups into a template.
pub record Found : Type 0 where
  pub start : ℕ
  pub end : ℕ
  pub groups : List (Option Text)

pub record Regexps : Type 1 where
  pub Regexp : Type 0
  pub compile : Text → Option Regexp
  pub num_subexp : Regexp → ℕ
  pub find : Regexp → Text → Option Found
  pub expand : Regexp → Text → Text → Found → Text

pub data PackError : Type 0 where
  legacy_schema future_schema invalid_identity engine_version_not_semantic no_rules : PackError
  invalid_capability duplicate_capability unsupported_capability : Text → PackError
  invalid_rule unsupported_syntax duplicate_rule bad_pattern : Text → PackError
  bad_replacement bad_cause bad_rationale : Text → TemplateError → PackError
  invalid_risk tail_needs_high_risk : Text → PackError
  invalid_engine_version needs_engine duplicate_pack : Text → PackError
  matcher_conflict : Text → Text → PackError
  bad_compiled_pattern index_out_of_range : PackError

-- ValidateSchemaCompatibility, with SchemaCompatibility
unfoldable pub validate_schema_compatibility : ℕ → Result PackError (Unit {0})
validate_schema_compatibility version =
    if version == 1 then ok tt else if ltb version 1 then err legacy_schema else err future_schema

-- The loop of validateCompatibilityMetadata.
unfoldable pub validate_capabilities : List Text → List Text → Result PackError (Unit {0})
validate_capabilities seen [] = ok tt
validate_capabilities seen (c ∷ cs) =
    let rest = validate_capabilities (c ∷ seen) cs in
    if not (identifier c)
    then err (invalid_capability c)
    else if elem c seen
    then err (duplicate_capability c)
    else rest

unfoldable pub validate_compatibility_metadata : Pack → Result PackError (Unit {0})
unfolding validate_capabilities
validate_compatibility_metadata pack = do
  guard (equal pack.min_engine_version [] || semantic_version pack.min_engine_version)
      engine_version_not_semantic
  validate_capabilities [] pack.capabilities

-- The error of a template, under the name of its rule.
abbrev pub in_rule :
    (TemplateError → PackError) → Result TemplateError (Unit {0}) → Result PackError (Unit {0})
in_rule wrap (ok done) = ok done
in_rule wrap (err e) = err (wrap e)

abbrev pub is_high : Risk → Bool
is_high high = true
is_high risk = false

abbrev pub is_known : Risk → Bool
is_known (other r) = false
is_known risk = true

abbrev is_empty : Text → Bool
is_empty s = equal s []

abbrev pub or_error {ℓ} : {A : Type ℓ} → PackError → Option A → Result PackError A
or_error e none = err e
or_error e (some a) = ok a

unfoldable pub validate_rule : Regexps → List Text → Rule → Result PackError (Unit {0})
validate_rule regexps seen rule = do
  guard
      (identifier rule.id
        && not (is_empty rule.command)
        && not (is_empty rule.pattern)
        && not (is_empty rule.replacement)
        && not (is_empty rule.cause))
      (invalid_rule rule.id)
  guard (safe_transformation_template rule.replacement) (unsupported_syntax rule.id)
  guard (not (elem rule.id seen)) (duplicate_rule rule.id)
  pattern ← or_error (bad_pattern rule.id) (regexps.compile rule.pattern)
  in_rule (bad_replacement rule.id)
      (validate_transformation_template rule.replacement (regexps.num_subexp pattern))
  in_rule (bad_cause rule.id)
      (validate_explanation_template rule.cause (regexps.num_subexp pattern))
  guard (is_known rule.risk) (invalid_risk rule.id)
  guard (not rule.preserve_tail || is_high rule.risk) (tail_needs_high_risk rule.id)
  in_rule (bad_rationale rule.id) (validate_risk_metadata rule.risk_rationale)

-- The loop of Pack.Validate.
unfoldable pub validate_rules : Regexps → List Text → List Rule → Result PackError (Unit {0})
unfolding validate_rule
validate_rules regexps seen [] = ok tt
validate_rules regexps seen (rule ∷ rules) =
    validate_rule regexps seen rule >> validate_rules regexps (rule.id ∷ seen) rules

abbrev pub is_nil : List Rule → Bool
is_nil [] = true
is_nil (rule ∷ rules) = false

unfoldable pub validate_pack : Regexps → Pack → Result PackError (Unit {0})
unfolding validate_schema_compatibility validate_compatibility_metadata validate_rules
validate_pack regexps p = do
  validate_schema_compatibility p.schema_version
  guard (identifier p.id && semantic_version p.version && identifier p.publisher) invalid_identity
  validate_compatibility_metadata p
  guard (not (is_nil p.rules)) no_rules
  validate_rules regexps [] p.rules

abbrev pub supported_capabilities : List Text
supported_capabilities =
    codes "matcher-v1" ∷ codes "transformation-v1" ∷ codes "explanation-v1" ∷ codes "risk-v1" ∷ []

unfoldable pub check_capabilities : List Text → Result PackError (Unit {0})
check_capabilities [] = ok tt
check_capabilities (c ∷ cs) =
    guard (elem c supported_capabilities) (unsupported_capability c) >> check_capabilities cs

-- `p.MinEngineVersion != "" && compareVersion(engineVersion, p.MinEngineVersion) < 0`; an index out
-- of range in compareVersion is an error of the model's own.
abbrev pub needs_at_least : Text → Option Ordering → Result PackError (Unit {0})
needs_at_least minimum none = err index_out_of_range
needs_at_least minimum (some Ordering.lt) = err (needs_engine minimum)
needs_at_least minimum (some above) = ok tt

unfoldable pub check_engine : Text → Text → Result PackError (Unit {0})
check_engine engine [] = ok tt
check_engine engine (c ∷ minimum) =
    needs_at_least (c ∷ minimum) (compare_version engine (c ∷ minimum))

unfoldable pub check_compatibility : Regexps → Pack → Text → Result PackError (Unit {0})
unfolding validate_pack check_engine check_capabilities
check_compatibility regexps p engine = do
  validate_pack regexps p
  guard (semantic_version engine) (invalid_engine_version engine)
  check_engine engine p.min_engine_version
  check_capabilities p.capabilities

abbrev pub engine_version : Text
engine_version = codes "1.0.0"

module _ (regexps : Regexps) where
  pub record CompiledRule : Type 0 where
    pub rule : Rule
    pub pattern : regexps.Regexp

  pub record CompiledPack : Type 0 where
    pub pack : Pack
    pub rules : List CompiledRule

  -- The loop of Compile.
  unfoldable pub compile_rules : List Rule → Result PackError (List CompiledRule)
  compile_rules [] = ok []
  compile_rules (rule ∷ rules) = do
    pattern ← or_error bad_compiled_pattern (regexps.compile rule.pattern)
    rest ← compile_rules rules
    ok (record { rule = rule; pattern = pattern } ∷ rest)

  unfoldable pub compile : Pack → Result PackError CompiledPack
  unfolding check_compatibility compile_rules
  compile pack = do
    check_compatibility regexps pack engine_version
    compiled ← compile_rules pack.rules
    ok (record { pack = pack; rules = compiled })
