-- ===== src/Packs/Candidates.antt =====
-- The corpus of command candidates in internal/packs/candidates.go. Loading its file is left out.
pub mod Corpus
use solomon.Prelude.{
  ℕ, Bool, true, false, not, ◌&&◌, ◌||◌, Option, none, some, List, [], ◌∷◌, ◌==◌, if◌then◌else◌,
  Result, ok, err, ◌>>◌, guard, Text, equal, elem,
}
use solomon.Packs.State.{identifier}

pub record CommandCandidate : Type 0 where
  pub id : Text
  pub command : Text
  pub replacement : Text

pub record CommandCandidateCorpus : Type 0 where
  pub schema_version : ℕ
  pub candidates : List CommandCandidate

pub data CorpusError : Type 0 where
  unsupported_schema : ℕ → CorpusError
  no_candidates missing_resolver : CorpusError
  invalid_candidate duplicate_candidate : Text → CorpusError
  resolved_otherwise : Text → Text → Text → CorpusError

-- The loop of CommandCandidateCorpus.Validate.
unfoldable pub validate_candidates :
    List Text → List CommandCandidate → Result CorpusError (Unit {0})
validate_candidates seen [] = ok tt
validate_candidates seen (c ∷ cs) =
    let rest = validate_candidates (c.id ∷ seen) cs in
    if not (identifier c.id)
      || not (identifier c.command)
      || not (identifier c.replacement)
      || equal c.command c.replacement
    then err (invalid_candidate c.id)
    else if elem c.id seen
    then err (duplicate_candidate c.id)
    else rest

abbrev pub is_nil : List CommandCandidate → Bool
is_nil [] = true
is_nil (c ∷ cs) = false

unfoldable pub validate_corpus : CommandCandidateCorpus → Result CorpusError (Unit {0})
unfolding validate_candidates
validate_corpus corpus = do
  guard (corpus.schema_version == 1) (unsupported_schema corpus.schema_version)
  guard (not (is_nil corpus.candidates)) no_candidates
  validate_candidates [] corpus.candidates

-- One candidate of the loop of RunCommandCandidateCorpus: what was resolved, and whether it was.
abbrev pub check_candidate : CommandCandidate → Text × Bool → Result CorpusError (Unit {0})
check_candidate c (actual, matched) =
    guard (matched && equal actual c.replacement) (resolved_otherwise c.id actual c.replacement)

unfoldable pub run_candidates :
    (Text → Text × Bool) → List CommandCandidate → Result CorpusError (Unit {0})
run_candidates resolve [] = ok tt
run_candidates resolve (c ∷ cs) = check_candidate c (resolve c.command) >> run_candidates resolve cs

abbrev pub run_with :
    Option (Text → Text × Bool) → List CommandCandidate → Result CorpusError (Unit {0})
run_with none cs = err missing_resolver
run_with (some resolve) cs = run_candidates resolve cs

unfoldable pub run_command_candidate_corpus :
    CommandCandidateCorpus → Option (Text → Text × Bool) → Result CorpusError (Unit {0})
unfolding validate_corpus run_candidates
run_command_candidate_corpus corpus resolve =
    validate_corpus corpus >> run_with resolve corpus.candidates
