-- ===== src/Diagnose/Engine/Repairs/Sound.antt =====
-- What commandDecision repairs, and by what.
use solomon.Prelude.{
  ℕ, ◌≤◌, ◌≡◌, sym, ap, ◌⊎◌, inl, inr, true, false, ◌||◌, some, List, [], ◌∷◌, arith, Bool-cases,
  Option-cases, ok, get_elem?, Text, codes, or_false,
}
use solomon.Diagnose.Rank.{
  command_class, max_distance, confidence, meets_confidence_threshold, nearest,
}
use solomon.Diagnose.Commands.{command_positions}
use solomon.Diagnose.Commands.Positions.{contains}
use solomon.Diagnose.Risk.{cause_command_not_found, consequence_command_rejects}
use solomon.Diagnose.Decision.{Decision, empty_decision}
use solomon.Diagnose.Engine.Values.{World, command_word}
use solomon.Diagnose.Engine.Repairs.{
  repair, is_path_qualified, is_near, command_from, command_decision,
}

-- A decision on the word at one of the positions, which is no path and no command on PATH, by the
-- candidate that is nearest to it and near enough.
pub record IsRepair (world : World) (words : List Text) (positions : List ℕ) (d : Decision)
    : Type 0 where
  pub position : ℕ
  pub word : Text
  pub listed : contains position positions ≡ true
  pub there : get_elem? words position ≡ some word
  pub unqualified : is_path_qualified world word ≡ false
  pub not_found : world.command_exists word ≡ false
  pub original : d.original ≡ word
  pub replacement : d.replacement ≡ (nearest word world.executables).0
  pub near : (nearest word world.executables).1 ≤ max_distance word
  pub confident : meets_confidence_threshold command_class (confidence word d.replacement) ≡ true
  pub sure : d.confidence ≡ confidence word d.replacement

module _ (world : World) (words : List Text) where
  further :
      (position : ℕ) (positions : List ℕ) (d : Decision)
      → IsRepair world words positions d
      → IsRepair world words (position ∷ positions) d
  further position positions d r = record {
    position = r.position;
    word = r.word;
    listed = let l = r.listed in ground arith;
    there = r.there;
    unqualified = r.unqualified;
    not_found = r.not_found;
    original = r.original;
    replacement = r.replacement;
    near = r.near;
    confident = r.confident;
    sure = r.sure;
  }

  widen :
      (position : ℕ) (positions : List ℕ) (d : Decision)
      → (d ≡ empty_decision) ⊎ IsRepair world words positions d
      → (d ≡ empty_decision) ⊎ IsRepair world words (position ∷ positions) d
  widen position positions d (inl empty) = inl empty
  widen position positions d (inr r) = inr (further position positions d r)

  -- The decision on a word by its nearest candidate.
  abbrev by_nearest : ℕ → Text → Decision
  by_nearest position word =
      repair world command_class cause_command_not_found consequence_command_rejects (codes "path")
        words position word (nearest word world.executables).0 (nearest word world.executables).1
        (confidence word (nearest word world.executables).0)

  by_nearest-IsRepair :
      (position : ℕ) (positions : List ℕ) (word : Text) (d : Decision)
      → get_elem? words position ≡ some word
      → (is_path_qualified world word || world.command_exists word) ≡ false
      → is_near world command_class word
          (nearest word world.executables).0
          (nearest word world.executables).1
        ≡ true
      → by_nearest position word ≡ d
      → IsRepair world words (position ∷ positions) d
  unfolding repair
  by_nearest-IsRepair position positions word d there unknown near same =
      let (unqualified, not_found) = or_false _ _ unknown in
      let replaced : d.replacement ≡ (nearest word world.executables).0 =
        ap (λ (r : Decision). r.replacement) (sym same) in
      record {
        position = position;
        word = word;
        listed = ground arith;
        there = there;
        unqualified = unqualified;
        not_found = not_found;
        original = ap (λ (r : Decision). r.original) (sym same);
        replacement = replaced;
        near = ground arith;
        confident = rw replaced (ground arith);
        sure = rw replaced (ap (λ (r : Decision). r.confidence) (sym same));
      }

  command_from-IsRepair :
      (positions : List ℕ) (d : Decision)
      → command_from world words positions ≡ ok d
      → (d ≡ empty_decision) ⊎ IsRepair world words positions d
  unfolding command_from
  command_from-IsRepair [] d h = inl (ground arith)
  command_from-IsRepair (position ∷ positions) d h =
      elim (Bool-cases (world.cancelled (command_word position))) [
        | inl cancelled ↦ absurd (ground arith)
        | inr going ↦ elim (Option-cases (get_elem? words position)) [
          | inl missing ↦
              widen position positions d (command_from-IsRepair positions d (ground arith))
          | inr (word, there) ↦
              elim (Bool-cases (is_path_qualified world word || world.command_exists word)) [
                | inl known ↦
                    widen position positions d (command_from-IsRepair positions d (ground arith))
                | inr unknown ↦
                    elim (Bool-cases (
                      is_near world command_class word (nearest word world.executables).0
                        (nearest word world.executables).1)) [
                          | inl near ↦ inr (
                              by_nearest-IsRepair position positions word d there unknown near
                                (ground arith))
                          | inr far ↦
                              widen position positions d
                                (command_from-IsRepair positions d (ground arith))
                        ]
              ]
        ]
      ]

  -- A command is repaired only at a command position, where the word is neither a path nor a command
  -- on PATH, and only by the candidate on PATH that is nearest to it, within the distance that a word
  -- of its length allows and with a confidence that meets the threshold of commands; otherwise
  -- nothing is decided, or the analysis ends with an error.
  pub command_decision-IsRepair :
      (d : Decision)
      → command_decision world words ≡ ok d
      → (d ≡ empty_decision) ⊎ IsRepair world words (command_positions words) d
  unfolding command_decision
  command_decision-IsRepair d h = command_from-IsRepair (command_positions words) d (ground arith)
