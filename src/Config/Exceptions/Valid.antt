-- ===== src/Config/Exceptions/Valid.antt =====
-- Which changes of the rule exceptions leave a configuration that loads again.
use solomon.Prelude.{
  ◌≡◌, refl, Bool, true, false, List, [], ◌∷◌, ◌++◌, arith, if◌then◌else◌, Result, ok, >>=-eq-ok,
  Text, equal, equal_refl, equal_comm, elem,
}
use mathlib.Core.Path.{subst}
use solomon.Config.Defs.{
  ConfigError, RuleException, Config, IsValid, validate_rule_exception, validate_from,
  validate_rule_exceptions,
}
use solomon.Config.Exceptions.{no_conflict, add_rule_exception, has_rule_exception, has_command}

ok_injective : {a b : Config} → ◌≡◌ {A = Result ConfigError Config} (ok a) (ok b) → a ≡ b
ok_injective h = cc

with_exceptions-IsValid :
    (c : Config) (es : List RuleException)
    → IsValid c
    → validate_rule_exceptions es ≡ ok tt
    → IsValid (record c { rule_exceptions = es })
with_exceptions-IsValid c es h v = ground arith

validate_from-concat :
    (es : List RuleException) (si sc : List Text) (e : RuleException)
    → validate_from si sc es ≡ ok tt
    → validate_rule_exception e ≡ ok tt
    → elem e.id si ≡ false
    → elem e.command sc ≡ false
    → no_conflict es e ≡ ok tt
    → validate_from si sc (es ++ e ∷ []) ≡ ok tt
unfolding validate_from no_conflict elem
validate_from-concat [] si sc e h v i c n = rw (v, i, c)
validate_from-concat (x ∷ es) si sc e h v i c n = ground (
  arith,
  equal_comm e.id x.id,
  equal_comm e.command x.command,
  validate_from-concat es (x.id ∷ si) (x.command ∷ sc) e,
)

has_command-concat :
    (es : List RuleException) (e : RuleException) → has_command (es ++ e ∷ []) e.command ≡ true
unfolding has_command
has_command-concat [] e = rw (equal_refl e.command)
has_command-concat (x ∷ es) e = ground (arith, has_command-concat es e)

-- Adding an exception to a valid configuration leaves it valid, and its command is then an exception.
pub add_rule_exception-IsValid :
    (c : Config) (e : RuleException) {d : Config}
    → IsValid c
    → add_rule_exception c e ≡ ok d
    → IsValid d × (has_rule_exception d e.command ≡ true)
unfolding add_rule_exception validate_rule_exceptions has_rule_exception elem
add_rule_exception-IsValid c e h a =
    let (_, v, checked) = >>=-eq-ok (validate_rule_exception e) _ a in
    let (_, n, added) = >>=-eq-ok (no_conflict c.rule_exceptions e) _ checked in
    let valid = validate_from-concat c.rule_exceptions [] [] e h.exceptions_valid v refl refl n in
    subst (λ r. IsValid r × (has_rule_exception r e.command ≡ true)) (ok_injective added)
      (
        with_exceptions-IsValid c (c.rule_exceptions ++ e ∷ []) h valid,
        has_command-concat c.rule_exceptions e,
      )

-- Is the command that of an exception behind the first one with the id?
abbrev pub later_command : List RuleException → Text → Text → Bool
later_command [] id command = false
later_command (x ∷ es) id command =
    if equal x.id id then has_command es command else later_command es id command
