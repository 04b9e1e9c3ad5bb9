-- ===== src/Examples/Shell.antt =====
-- Actions, widths and keys of the shell integration.
use solomon.Prelude.{◌≡◌, false, not, ◌&&◌, ◌||◌, [], Text, codes, equal}
use solomon.Shell.Actions.{rewrite_state, resolve_action, risk_confirmation}
use solomon.Shell.Actions.Effects.{is_some, resolve_action-risk_confirmation}

abbrev high : Text
high = codes "high"

abbrev repair : Text
repair = codes "rm -r build"

resolve_action-risk_confirmation_example :
    (((resolve_action rewrite_state high repair).submit
        && (resolve_action rewrite_state high repair).rewrite)
      ≡ false)
    × (((resolve_action rewrite_state high repair).rewrite
          && (is_some (risk_confirmation high repair) || equal repair []))
        ≡ false)
    × (((resolve_action rewrite_state high repair).refused
          && (not (resolve_action rewrite_state high repair).render
              || (resolve_action rewrite_state high repair).submit
              || (resolve_action rewrite_state high repair).rewrite))
        ≡ false)
resolve_action-risk_confirmation_example =
    resolve_action-risk_confirmation rewrite_state high repair
