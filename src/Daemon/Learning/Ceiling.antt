-- ===== src/Daemon/Learning/Ceiling.antt =====
-- How far a learned rule may go.
use solomon.Prelude.{ℕ, ◌≤◌, min, ◌≡◌, true, false, ◌&&◌, ltb, Text}
use solomon.Config.Defs.{
  Config, LearnedAction, off_action, hint_action, rewrite_action, other_action,
}
use solomon.Redact.{Patterns}
use solomon.Daemon.Protocol.{Response}
use solomon.Daemon.Service.{is_rewrite}
use solomon.Daemon.Learning.{LearnedRule, normalized_learning_command}

-- The levels of the actions; a name that is no action has the level of off.
abbrev pub level : LearnedAction → ℕ
level off_action = 0
level hint_action = 1
level rewrite_action = 2
level (other_action name) = 0

-- The rule that a learned decision follows.
pub record Follows (patterns : Patterns) (config : Config) (command : Text) (rule : LearnedRule)
    (r : Response) : Type 0 where
  pub learning : config.local_learning_enabled ≡ true
  pub enabled : rule.enabled ≡ true
  pub failure : rule.failure ≡ (normalized_learning_command patterns command).0
  pub secret_free : (normalized_learning_command patterns command).1 ≡ true
  pub correction : r.suggestion ≡ rule.correction
  pub allowed : 1 ≤ min (level rule.action) (level config.learned_rule_action_ceiling)
  pub no_further :
      (is_rewrite r.action
        && ltb (min (level rule.action) (level config.learned_rule_action_ceiling)) 2)
      ≡ false
