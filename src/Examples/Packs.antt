-- ===== src/Examples/Packs.antt =====
-- The enabled packs.
use solomon.Prelude.{◌≡◌, refl, true, ◌||◌, List, [], ◌∷◌, Text, codes, equal, text_lt}
use solomon.Packs.State.{validate_from, validate, enabled_for, enable, disable}
use solomon.Packs.State.Enabled.{enable-enabled_for}

abbrev enabled : List Text
enabled = codes "core-git" ∷ codes "rust" ∷ []

enabled_valid : validate enabled ≡ true
unfolding solomon.Packs.State.identifier solomon.Packs.State.validate solomon.Prelude.text_lt
enabled_valid = refl

go_enabled : (enable enabled (codes "go")).1 ≡ true
unfolding solomon.Packs.State.identifier solomon.Packs.State.search_strings
    solomon.Packs.State.enabled_for solomon.Packs.State.enable solomon.Prelude.equal
    solomon.Prelude.text_lt
go_enabled = refl

enable-enabled_for_example :
    (validate (enable enabled (codes "go")).0 ≡ true)
    × (enabled_for (enable enabled (codes "go")).0 (codes "rust")
        ≡ (equal (codes "rust") (codes "go") || enabled_for enabled (codes "rust")))
enable-enabled_for_example =
    enable-enabled_for enabled (codes "go") (codes "rust") enabled_valid go_enabled
