-- ===== src/Shell/Actions.antt =====
-- internal/shell/actions.go: the effect of an action, the texts it is shown with, and the sets of keys
-- that are accepted, skipped or suppressed. A set is the list of its keys.
pub mod Effects
use solomon.Prelude.{
  ℕ, ◌+◌, ◌-◌, Bool, true, false, not, ◌&&◌, ◌||◌, Option, none, some, List, [], ◌∷◌, ◌++◌, map,
  leb, ◌==◌, if◌then◌else◌, length, take, Text, codes, equal, elem, text_lt, trim_space, join_with,
  width, sort,
}
use solomon.Diagnose.Rank.{Confidence, at_least}
use solomon.Diagnose.Decision.{itoa}

pub data ActionState : Type 0 where
  none_state hint_state interrupt_state rewrite_state run_unchanged edit_in_buffer skip_once :
      ActionState
  other_state : Text → ActionState

pub record ActionResult : Type 0 where
  pub render : Bool
  pub submit : Bool
  pub rewrite : Bool
  pub refused : Bool

abbrev pub nothing : ActionResult
nothing = record { render = false; submit = false; rewrite = false; refused = false }

-- A rewrite or an edit of the buffer needs a repair that is safe.
abbrev pub applied : Text → Text → ActionResult
applied risk suggestion =
    if equal risk (codes "safe") && not (equal suggestion [])
    then record nothing { rewrite = true }
    else record nothing { render = true; refused = true }

unfoldable pub resolve_action : ActionState → Text → Text → ActionResult
resolve_action none_state risk suggestion = record nothing { submit = true }
resolve_action run_unchanged risk suggestion = record nothing { submit = true }
resolve_action skip_once risk suggestion = record nothing { submit = true }
resolve_action hint_state risk suggestion = record nothing { render = true; submit = true }
resolve_action interrupt_state risk suggestion = record nothing { render = true }
resolve_action rewrite_state risk suggestion = applied risk suggestion
resolve_action edit_in_buffer risk suggestion = applied risk suggestion
resolve_action (other_state name) risk suggestion = record nothing { submit = true }

unfoldable pub inline_diagnostic : Text → Text → Text → Text
inline_diagnostic risk confidence suggestion =
    codes "solomon [" ++ (risk ++ (b'/' ∷ (confidence ++ (codes "]: " ++ suggestion))))

-- The message of a dialog, where one is required.
unfoldable pub risk_confirmation : Text → Text → Option Text
risk_confirmation risk suggestion =
    if equal risk (codes "safe") || equal suggestion []
    then none
    else some (codes "confirm " ++ (risk ++ (codes "-risk repair: " ++ suggestion)))

-- Confidences are fractions, so none is below 0.
unfoldable pub low_confidence_hint : Confidence → ActionResult
low_confidence_hint value =
    if at_least value 80 then nothing else record nothing { render = true; submit = true }

unfoldable pub low_confidence_interrupt : Confidence → Bool → ActionResult
low_confidence_interrupt value opted_in =
    if opted_in && not (at_least value 80) then record nothing { render = true } else nothing

abbrev pub max_selector_candidates : ℕ
max_selector_candidates = 5

-- The keys of the map of trimmed candidates.
unfoldable pub unique_candidates : List Text → List Text → List Text
unique_candidates unique [] = unique
unique_candidates unique (candidate ∷ rest) =
    let value = trim_space candidate in
    unique_candidates (if equal value [] || elem value unique then unique else value ∷ unique) rest

numbered : ℕ → List Text → List Text
numbered index [] = []
numbered index (candidate ∷ rest) =
    (itoa (index + 1) ++ (codes ". " ++ candidate)) ∷ numbered (index + 1) rest

unfoldable pub ordered_candidates : List Text → List Text
unfolding unique_candidates
ordered_candidates candidates =
    take max_selector_candidates (sort text_lt (unique_candidates [] candidates))

unfoldable pub render_candidate_selector : List Text → Text
unfolding numbered
render_candidate_selector candidates =
    join_with (codes "\n") (numbered 0 (ordered_candidates candidates))

-- A width that is not positive is 0 here.
unfoldable pub truncate_for_width : Text → ℕ → Text
truncate_for_width value width =
    if width == 0
    then []
    else if leb (length value) width
    then value
    else if width == 1
    then 0x2026 ∷ []
    else take (width - 1) value ++ 0x2026 ∷ []

-- OneTimeAccept.Accept and SkipOnce.Skip
unfoldable pub accept_once : Text → List Text → List Text × Bool
accept_once key accepted =
    if equal key [] || elem key accepted then (accepted, false) else (key ∷ accepted, true)

-- RuleSuppressions.Suppress
unfoldable pub suppress : Text → List Text → List Text × Bool
unfolding accept_once
suppress rule rules = accept_once (trim_space rule) rules

unfoldable pub suppressed : Text → List Text → Bool
suppressed rule rules = elem (trim_space rule) rules

-- SafeRuleAcceptances.Accept
unfoldable pub accept_safe : Text → Text → List Text → List Text × Bool
unfolding accept_once
accept_safe rule risk rules =
    if equal risk (codes "safe") then accept_once (trim_space rule) rules else (rules, false)
