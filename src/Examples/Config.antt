-- ===== src/Examples/Config.antt =====
-- Configurations changed, migrated and overridden.
use solomon.Prelude.{◌≡◌, refl, true, [], ◌∷◌, Result, ok, err, codes, trim_space, width, byte_len}
use solomon.Config.Defs.{
  Config, Mode, ConfigError, RuleException, rewrite, interrupt, default, default-IsValid, IsValid,
  validate_rule_exceptions,
}
use solomon.Config.Exceptions.{add_rule_exception, update_rule_exception, has_rule_exception}
use solomon.Config.Exceptions.Valid.{add_rule_exception-IsValid}
use solomon.Config.Migration.{
  pos, migrate, finish_decode, IsMigrated, migrate-IsMigrated, finish_decode-IsValid,
}

abbrev config_of : Result ConfigError Config → Config
config_of (ok c) = c
config_of (err e) = default

abbrev first_exception : RuleException
first_exception = record { id = codes "a"; command = codes "ls" }

abbrev second_exception : RuleException
second_exception = record { id = codes "b"; command = codes "pwd" }

abbrev with_one : Config
with_one = config_of (add_rule_exception default first_exception)

with_one_added : add_rule_exception default first_exception ≡ ok with_one
unfolding solomon.Config.Defs.default solomon.Config.Defs.valid_rule_exception_id
    solomon.Config.Defs.validate_rule_exception solomon.Config.Exceptions.no_conflict
    solomon.Config.Exceptions.add_rule_exception solomon.Prelude.trim_space solomon.Prelude.width
    solomon.Prelude.byte_len
with_one_added = refl

add_rule_exception-IsValid_example :
    IsValid with_one × (has_rule_exception with_one (codes "ls") ≡ true)
add_rule_exception-IsValid_example =
    add_rule_exception-IsValid default first_exception default-IsValid with_one_added

abbrev with_two : Config
with_two = record default { rule_exceptions = first_exception ∷ second_exception ∷ [] }

abbrev conflicting : Config
conflicting = config_of (update_rule_exception with_two (codes "a") (codes "pwd"))

abbrev old : Config
old = record default { mode = rewrite; schema_version = 3 }

abbrev loaded : Config
loaded = config_of (finish_decode old (pos 3))

loads : finish_decode old (pos 3) ≡ ok loaded
unfolding solomon.Config.Defs.default solomon.Config.Defs.validate_rule_exceptions
    solomon.Config.Defs.validate solomon.Config.Migration.migrate_step
    solomon.Config.Migration.migrate solomon.Config.Migration.finish_decode
loads = refl
