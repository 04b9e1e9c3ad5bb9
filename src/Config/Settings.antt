-- ===== src/Config/Settings.antt =====
-- Set and the session overrides of internal/config/config.go.
pub mod Keeps
use solomon.Prelude.{
  ℕ, ◌+◌, ◌-◌, ◌*◌, Bool, true, false, not, ◌&&◌, ◌||◌, Option, none, some, List, [], ◌∷◌, map, ltb,
  leb, ◌==◌, if◌then◌else◌, Result, ok, err, ◌>>=◌, ◌>>◌, Text, codes, equal, elem, text_lt,
  has_prefix, cut_at, sort, ◌^◌,
}
use solomon.Config.Defs.{
  ConfigError, invalid_mode, invalid_action, invalid_retention, invalid_ttl, not_boolean,
  unknown_key, unknown_override, duplicate_override, invalid_override, mode_of, learned_action_of,
  valid_mode, valid_learned_rule_action, Config, max_learning_retention_days, max_undo_ttl_seconds,
}

-- The keys of Set; `switch_of` are those whose value is a Boolean.
pub data Switch : Type 0 where
  auto_apply_safe curated_packs_enabled risk_interrupt local_learning_enabled undo_enabled : Switch
  display_cause display_change display_confidence display_risk display_consequence : Switch
  display_trace : Switch

pub data Setting : Type 0 where
  mode learning_retention_days undo_ttl_seconds learned_rule_action_ceiling unknown_setting :
      Setting
  switch : Switch → Setting

abbrev switches : List (Text × Switch)
switches =
    (codes "auto_apply_safe", auto_apply_safe)
    ∷ (codes "curated_packs_enabled", curated_packs_enabled)
    ∷ (codes "risk_interrupt", risk_interrupt)
    ∷ (codes "local_learning_enabled", local_learning_enabled)
    ∷ (codes "undo_enabled", undo_enabled)
    ∷ (codes "display.cause", display_cause)
    ∷ (codes "display.change", display_change)
    ∷ (codes "display.confidence", display_confidence)
    ∷ (codes "display.risk", display_risk)
    ∷ (codes "display.consequence", display_consequence)
    ∷ (codes "display.trace", display_trace)
    ∷ []

switch_in : Text → List (Text × Switch) → Setting
switch_in key [] = unknown_setting
switch_in key ((name, s) ∷ rest) = if equal key name then switch s else switch_in key rest

unfoldable pub setting_of : Text → Setting
unfolding switch_in
setting_of key =
    if equal key (codes "mode")
    then mode
    else if equal key (codes "learning_retention_days")
    then learning_retention_days
    else if equal key (codes "undo_ttl_seconds")
    then undo_ttl_seconds
    else if equal key (codes "learned_rule_action_ceiling")
    then learned_rule_action_ceiling
    else switch_in key switches

-- strconv.ParseBool
unfoldable pub parse_bool : Text → Option Bool
parse_bool value =
    if elem value
      (codes "1" ∷ codes "t" ∷ codes "T" ∷ codes "TRUE" ∷ codes "true" ∷ codes "True" ∷ [])
    then some true
    else if elem value
        (codes "0" ∷ codes "f" ∷ codes "F" ∷ codes "FALSE" ∷ codes "false" ∷ codes "False" ∷ [])
    then some false
    else none

-- The value of decimal digits behind `n`; none at another character or past the largest int64.
digits_value : ℕ → Text → Option ℕ
digits_value n [] = if ltb n (2 ^ 63) then some n else none
digits_value n (c ∷ cs) =
    let rest = digits_value (n * 10 + (c - b'0')) cs in
    if leb b'0' c && leb c b'9' then rest else none

-- strconv.Atoi where the result is at least 0; a negative number is never in a range that is wanted.
unfoldable pub atoi : Text → Option ℕ
unfolding digits_value
atoi [] = none
atoi (c ∷ []) = digits_value 0 (c ∷ [])
atoi (c ∷ d ∷ cs) = if c == b'+' then digits_value 0 (d ∷ cs) else digits_value 0 (c ∷ d ∷ cs)

-- The parsed number, if it lies between 1 and the bound.
abbrev in_range : ℕ → Option ℕ → Option ℕ
in_range bound none = none
in_range bound (some n) = if ltb n 1 || ltb bound n then none else some n

unfoldable pub set_switch : Switch → Bool → Config → Config
set_switch auto_apply_safe b c = record c { auto_apply_safe = b }
set_switch curated_packs_enabled b c = record c { curated_packs_enabled = b }
set_switch risk_interrupt b c = record c { risk_interrupt = b }
set_switch local_learning_enabled b c = record c { local_learning_enabled = b }
set_switch undo_enabled b c = record c { undo_enabled = b }
set_switch display_cause b c = let d = c.display in record c { display = record d { cause = b } }
set_switch display_change b c = let d = c.display in record c { display = record d { change = b } }
set_switch display_confidence b c =
    let d = c.display in record c { display = record d { confidence = b } }
set_switch display_risk b c = let d = c.display in record c { display = record d { risk = b } }
set_switch display_consequence b c =
    let d = c.display in record c { display = record d { consequence = b } }
set_switch display_trace b c = let d = c.display in record c { display = record d { trace = b } }

unfoldable pub apply_setting : Setting → Text → Config → Result ConfigError Config
unfolding set_switch
apply_setting mode value c =
    if not (valid_mode (mode_of value))
    then err invalid_mode
    else ok (record c { mode = mode_of value })
apply_setting (switch s) value c = elim (parse_bool value) [
  | none ↦ err not_boolean
  | some parsed ↦ ok (set_switch s parsed c)
]
apply_setting learning_retention_days value c =
    elim (in_range max_learning_retention_days (atoi value)) [
      | none ↦ err invalid_retention
      | some parsed ↦ ok (record c { learning_retention_days = parsed })
    ]
apply_setting undo_ttl_seconds value c = elim (in_range max_undo_ttl_seconds (atoi value)) [
  | none ↦ err invalid_ttl
  | some parsed ↦ ok (record c { undo_ttl_seconds = parsed })
]
apply_setting learned_rule_action_ceiling value c =
    if not (valid_learned_rule_action (learned_action_of value))
    then err invalid_action
    else ok (record c { learned_rule_action_ceiling = learned_action_of value })
apply_setting unknown_setting value c = err unknown_key

unfoldable pub set : Text → Text → Config → Result ConfigError Config
unfolding apply_setting
set key value c = apply_setting (setting_of key) value c

abbrev pub session_override_keys : List (Text × Text)
session_override_keys =
    (codes "SOLOMON_MODE", codes "mode")
    ∷ (codes "SOLOMON_AUTO_APPLY_SAFE", codes "auto_apply_safe")
    ∷ (codes "SOLOMON_CURATED_PACKS_ENABLED", codes "curated_packs_enabled")
    ∷ (codes "SOLOMON_RISK_INTERRUPT", codes "risk_interrupt")
    ∷ (codes "SOLOMON_LOCAL_LEARNING_ENABLED", codes "local_learning_enabled")
    ∷ (codes "SOLOMON_UNDO_ENABLED", codes "undo_enabled")
    ∷ (codes "SOLOMON_UNDO_TTL_SECONDS", codes "undo_ttl_seconds")
    ∷ []

-- A Go map from texts, as an association list without order.
unfoldable pub lookup_text : Text → List (Text × Text) → Option Text
lookup_text key [] = none
lookup_text key ((k, v) ∷ rest) = if equal k key then some v else lookup_text key rest

abbrev is_number_setting : Text → Bool
is_number_setting setting = equal setting (codes "mode") || equal setting (codes "undo_ttl_seconds")

abbrev is_boolean_word : Text → Bool
is_boolean_word value = equal value (codes "true") || equal value (codes "false")

abbrev refuses_word : Text → Text → Bool
refuses_word setting value = not (is_number_setting setting) && not (is_boolean_word value)

-- One round of the loop over the sorted keys, with the setting of its key.
unfoldable pub override_setting : Option Text → Text → Config → Result ConfigError Config
override_setting none value c = err unknown_override
override_setting (some setting) value c =
    if equal value []
    then ok c
    else if refuses_word setting value
    then err invalid_override
    else set setting value c

unfoldable pub override_with : Text → Text → Config → Result ConfigError Config
override_with key value c = override_setting (lookup_text key session_override_keys) value c

unfoldable pub override_all : List (Text × Text) → Config → Result ConfigError Config
override_all [] c = ok c
override_all ((key, value) ∷ rest) c = do
  changed ← override_with key value c
  override_all rest changed

abbrev key_before : Text × Text → Text × Text → Bool
key_before (a, v) (b, w) = text_lt a b

unfoldable pub apply_session_overrides : Config → List (Text × Text) → Result ConfigError Config
unfolding override_all
apply_session_overrides c values = override_all (sort key_before values) c

-- sessionValues with an environment listing: the loop over its entries.
unfoldable pub session_values_from :
    List (Text × Text) → List Text → Result ConfigError (List (Text × Text))
session_values_from values [] = ok values
session_values_from values (entry ∷ entries) =
    let (key, after) = cut_at b'=' entry in
    let skipped = session_values_from values entries in
    elim after [
      | none ↦ skipped
      | some value ↦
          if not (has_prefix key (codes "SOLOMON_"))
            || equal key (codes "SOLOMON_REGISTRY_ENABLED")
            || equal key (codes "SOLOMON_AUTO_UPDATE_ENABLED")
          then skipped
          else elim (lookup_text key values) [
            | some old ↦ err duplicate_override
            | none ↦ session_values_from ((key, value) ∷ values) entries
          ]
    ]

unfoldable pub session_values : List Text → Result ConfigError (List (Text × Text))
unfolding session_values_from
session_values environ = session_values_from [] environ
