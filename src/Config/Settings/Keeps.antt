-- ===== src/Config/Settings/Keeps.antt =====
-- A setting keeps a configuration valid, and changes no other field that decides on rewrites.
use solomon.Prelude.{
  ◌≡◌, inl, inr, Bool, Option, none, some, List, [], ◌∷◌, arith, Bool-cases, ok, >>=-eq-ok, Text,
  equal,
}
use solomon.Config.Defs.{Config, IsValid}
use solomon.Config.Settings.{
  Setting, mode, switch, override_setting, refuses_word, set_switch, apply_setting, setting_of, set,
  override_with, override_all, apply_session_overrides, Switch,
}

set_switch-IsValid : (s : Switch) (b : Bool) (c : Config) → IsValid c → IsValid (set_switch s b c)
unfolding set_switch
set_switch-IsValid _ b c h = ground arith

apply_setting-IsValid :
    (s : Setting) (value : Text) (c : Config) {d : Config}
    → IsValid c
    → apply_setting s value c ≡ ok d
    → IsValid d
unfolding apply_setting
apply_setting-IsValid mode value c h e = ground arith
apply_setting-IsValid (switch s) value c h e = ground arith
apply_setting-IsValid _ value c h e = ground arith

-- A setting that is accepted keeps a valid configuration valid.
pub set-IsValid :
    (key value : Text) (c : Config) {d : Config} → IsValid c → set key value c ≡ ok d → IsValid d
unfolding set
set-IsValid key value c h e = apply_setting-IsValid (setting_of key) value c h e

override_setting-IsValid :
    (o : Option Text) (value : Text) (c : Config) {d : Config}
    → IsValid c
    → override_setting o value c ≡ ok d
    → IsValid d
unfolding override_setting
override_setting-IsValid none value c h e = cc
override_setting-IsValid (some setting) value c h e = elim (Bool-cases (equal value [])) [
  | inl empty ↦ let same = rw empty at e in ground arith
  | inr given ↦ elim (Bool-cases (refuses_word setting value)) [
    | inl refused ↦ absurd (ground arith)
    | inr taken ↦ set-IsValid setting value c h (rw (given, taken) at e)
  ]
]

override_all-IsValid :
    (values : List (Text × Text)) (c : Config) {d : Config}
    → IsValid c
    → override_all values c ≡ ok d
    → IsValid d
unfolding override_all override_with
override_all-IsValid [] c h e = ground arith
override_all-IsValid ((key, value) ∷ rest) c h e =
    let (changed, p, q) = >>=-eq-ok (override_with key value c) (override_all rest) e in
    override_all-IsValid rest changed (override_setting-IsValid _ value c h p) q

-- Session overrides, in whatever order the environment lists them, keep a valid configuration valid.
pub apply_session_overrides-IsValid :
    (c : Config) (values : List (Text × Text)) {d : Config}
    → IsValid c
    → apply_session_overrides c values ≡ ok d
    → IsValid d
unfolding apply_session_overrides
apply_session_overrides-IsValid c values h e = override_all-IsValid _ c h e
