-- ===== src/Config/Exceptions.antt =====
-- The rule exceptions of internal/config/config.go: lookup, add, update and remove.
pub mod Valid
use solomon.Prelude.{
  Bool, false, not, ◌&&◌, ◌||◌, List, [], ◌∷◌, ◌++◌, if◌then◌else◌, Result, ok, err, ◌>>=◌, ◌>>◌,
  guard, Text, equal,
}
use solomon.Config.Defs.{
  ConfigError, invalid_exception_id, exception_exists, command_exists, exception_missing,
  RuleException, Config, valid_rule_exception_id, validate_rule_exception,
}

unfoldable pub has_command : List RuleException → Text → Bool
has_command [] command = false
has_command (exception ∷ exceptions) command =
    equal exception.command command || has_command exceptions command

unfoldable pub has_rule_exception : Config → Text → Bool
unfolding has_command
has_rule_exception c command = has_command c.rule_exceptions command

-- The loop of AddRuleException over the existing exceptions.
unfoldable pub no_conflict : List RuleException → RuleException → Result ConfigError (Unit {0})
no_conflict [] exception = ok tt
no_conflict (existing ∷ rest) exception = do
  guard (not (equal existing.id exception.id)) exception_exists
  guard (not (equal existing.command exception.command)) command_exists
  no_conflict rest exception

unfoldable pub add_rule_exception : Config → RuleException → Result ConfigError Config
add_rule_exception c exception = do
  validate_rule_exception exception
  no_conflict c.rule_exceptions exception
  ok (record c { rule_exceptions = c.rule_exceptions ++ exception ∷ [] })

-- The loop of UpdateRuleException, which ends at the exception with the id.
unfoldable pub update_in :
    Text → Text → List RuleException → Result ConfigError (List RuleException)
update_in id command [] = err exception_missing
update_in id command (existing ∷ rest) =
    let further = update_in id command rest >>= λ updated. ok (existing ∷ updated) in
    if not (equal existing.id id) && equal existing.command command
    then err command_exists
    else if equal existing.id id
    then ok (record existing { command = command } ∷ rest)
    else further

unfoldable pub update_rule_exception : Config → Text → Text → Result ConfigError Config
update_rule_exception c id command = do
  guard (valid_rule_exception_id id) invalid_exception_id
  validate_rule_exception (record { id = id; command = command })
  updated ← update_in id command c.rule_exceptions
  ok (record c { rule_exceptions = updated })

unfoldable pub remove_in : Text → List RuleException → Result ConfigError (List RuleException)
remove_in id [] = err exception_missing
remove_in id (exception ∷ rest) =
    let further = remove_in id rest >>= λ removed. ok (exception ∷ removed) in
    if equal exception.id id then ok rest else further

unfoldable pub remove_rule_exception : Config → Text → Result ConfigError Config
remove_rule_exception c id = do
  guard (valid_rule_exception_id id) invalid_exception_id
  removed ← remove_in id c.rule_exceptions
  ok (record c { rule_exceptions = removed })
