-- ===== src/Diagnose/Engine/Paths.antt =====
-- pathDecision of internal/diagnose/engine.go.
use solomon.Prelude.{
  ℕ, ◌+◌, Bool, not, ◌&&◌, ◌||◌, Option, none, some, List, [], ◌∷◌, ◌++◌, ◌==◌, if◌then◌else◌,
  Result, ok, err, tail, Text, codes, has_prefix, contains_rune,
}
use solomon.Diagnose.Rank.{path_class, nearest, confidence}
use solomon.Diagnose.Risk.{cause_path_not_found, consequence_path_may_fail}
use solomon.Diagnose.Decision.{Decision, empty_decision}
use solomon.Diagnose.Engine.Values.{EngineError, cancelled_error, path_word, World}
use solomon.Diagnose.Engine.Repairs.{repair, is_near}

-- filepath.Split: the part up to the last slash, and the part behind it.
split_onto : Text → Text → Text → Text × Text
split_onto dir base [] = (dir, base)
split_onto dir base (c ∷ cs) =
    split_onto (if c == b'/' then dir ++ (base ++ c ∷ []) else dir)
      (if c == b'/' then [] else base ++ c ∷ []) cs

unfoldable pub split_path : Text → Text × Text
unfolding split_onto
split_path = split_onto [] []

-- A flag, or a word without a slash that does not begin with a dot, is no path.
abbrev pub is_no_path : Text → Bool
is_no_path word =
    has_prefix word (codes "-")
    || not (contains_rune word b'/') && not (has_prefix word (codes "."))

module _ (world : World) where
  -- The candidates for a path word: the entries of its directory, or none where there is nothing to do.
  unfoldable pub path_candidates : Text → Option (List Text)
  path_candidates word =
      if is_no_path word
      then none
      else if world.path_exists word
      then none
      else world.read_dir (split_path word).0

  -- The loop of pathDecision: `rest` are the words from index `i` on.
  unfoldable pub path_from : List Text → ℕ → List Text → Result EngineError Decision
  path_from words i [] = ok empty_decision
  path_from words i (word ∷ rest) =
      let next = path_from words (i + 1) rest in
      if world.cancelled (path_word i) then err cancelled_error else elim (path_candidates word) [
        | none ↦ next
        | some names ↦
            let (dir, base) = split_path word in
            let (best, distance) = nearest base names in
            if is_near world path_class base best distance
            then ok (
                repair world path_class cause_path_not_found consequence_path_may_fail
                  (codes "filesystem") words i word (world.join_path dir best) distance
                  (confidence base best))
            else next
      ]

  unfoldable pub path_decision : List Text → Result EngineError Decision
  unfolding path_from
  path_decision words = path_from words 1 (tail words)
