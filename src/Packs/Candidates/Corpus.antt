-- ===== src/Packs/Candidates/Corpus.antt =====
-- When a corpus of candidates passes.
use solomon.Prelude.{
  ◌≡◌, refl, Bool, true, false, Option, none, some, List, [], ◌∷◌, arith, ok, >>=-eq-ok, All, Text,
  equal, equal_iff,
}
use solomon.Packs.Candidates.{
  CommandCandidate, CommandCandidateCorpus, validate_candidates, validate_corpus, check_candidate,
  run_candidates, run_command_candidate_corpus,
}

-- The candidate's command is resolved, to its replacement, which is another word.
abbrev pub Resolves : (Text → Text × Bool) → CommandCandidate → Type 0
Resolves resolve c =
    (resolve c.command ≡ (c.replacement, true)) × (equal c.command c.replacement ≡ false)

check_candidate-ok :
    (c : CommandCandidate) (answer : Text × Bool)
    → check_candidate c answer ≡ ok tt
    → answer ≡ (c.replacement, true)
check_candidate-ok c (actual, matched) h =
    let same : actual ≡ c.replacement = (equal_iff actual c.replacement).0 (ground arith) in
    let is_matched : matched ≡ true = ground arith in rw (same, is_matched) refl

run_candidates-Resolves :
    (resolve : Text → Text × Bool) (seen : List Text) (cs : List CommandCandidate)
    → validate_candidates seen cs ≡ ok tt
    → run_candidates resolve cs ≡ ok tt
    → All (Resolves resolve) cs
unfolding validate_candidates run_candidates
run_candidates-Resolves resolve seen [] v h = tt
run_candidates-Resolves resolve seen (c ∷ cs) v h =
    let (_, first, rest) = >>=-eq-ok (check_candidate c (resolve c.command)) _ h in
    (
      (check_candidate-ok c (resolve c.command) first, ground arith),
      run_candidates-Resolves resolve (c.id ∷ seen) cs (ground arith) rest,
    )

validated :
    (corpus : CommandCandidateCorpus)
    → validate_corpus corpus ≡ ok tt
    → validate_candidates [] corpus.candidates ≡ ok tt
unfolding validate_corpus
validated corpus h = ground arith

-- A corpus passes only with a resolver, which gives the replacement of each candidate for its
-- command, a word that is not the command.
pub run_command_candidate_corpus-Resolves :
    (corpus : CommandCandidateCorpus) (given : Option (Text → Text × Bool))
    → run_command_candidate_corpus corpus given ≡ ok tt
    → (resolve : Text → Text × Bool) × (given ≡ some resolve)
      × All (Resolves resolve) corpus.candidates
unfolding run_command_candidate_corpus
run_command_candidate_corpus-Resolves corpus none h =
    let (_, _, rest) = >>=-eq-ok (validate_corpus corpus) _ h in absurd (cc)
run_command_candidate_corpus-Resolves corpus (some resolve) h =
    let (_, valid, rest) = >>=-eq-ok (validate_corpus corpus) _ h in
    (
      resolve,
      refl,
      run_candidates-Resolves resolve [] corpus.candidates (validated corpus valid) rest,
    )
