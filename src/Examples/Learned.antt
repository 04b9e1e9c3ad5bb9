-- ===== src/Examples/Learned.antt =====
-- A learned repair, and the nearest of some candidates.
use solomon.Prelude.{
  ◌≡◌, refl, true, Option, none, some, List, [], ◌∷◌, Text, codes, equal, elem, trim_left_space,
  trim_left_space,
}
use solomon.Config.Defs.{Config, default, LearnedAction}
use solomon.Config.Defs
use solomon.Redact.{no_patterns}
use solomon.Daemon.Protocol.{Response, bare, no_action}
use solomon.Daemon.Learning.{LearnedRule, learned_decision}
use solomon.Diagnose.Rank.{nearest}
use solomon.Diagnose.Rank.Nearest.{Picked, nearest-Picked}

abbrev rule : LearnedRule
rule = record {
  id = 7;
  failure = codes "git psuh";
  correction = codes "git push";
  action = Defs.rewrite_action;
  enabled = true;
}

abbrev learning : Config
learning = record default {
  local_learning_enabled = true;
  learned_rule_action_ceiling = Defs.hint_action;
}

abbrev response_or : Option Response → Response
response_or none = bare no_action
response_or (some r) = r

abbrev learned : Response
learned = response_or (learned_decision no_patterns learning (rule ∷ []) (codes "git  psuh"))

abbrev installed : List Text
installed = codes "gcc" ∷ codes "git" ∷ codes "go" ∷ []

go_installed : elem (codes "go") installed ≡ true
unfolding elem equal
go_installed = refl

nearest-Picked_example :
    Picked (codes "gti") installed (codes "go") (nearest (codes "gti") installed)
nearest-Picked_example = nearest-Picked (codes "gti") installed (codes "go") go_installed
