-- ===== src/Daemon/Evidence.antt =====
-- The evidence of a failure's output: internal/packs/*_failure.go and the attach…FailureEvidence
-- functions of internal/daemon/service.go. What an expression finds in an output (the first
-- group of each match) is the `find_all` of its extractor: the expressions are the regexp library's.
use solomon.Prelude.{
  ℕ, Bool, false, not, ◌&&◌, ◌||◌, Option, none, some, List, [], ◌∷◌, ltb, if◌then◌else◌, any, Text,
  equal, text_lt, is_control, trim_space, byte_len, sort,
}
use solomon.Redact.{Patterns}
use solomon.Redact
use solomon.Diagnose.Decision.{Evidence}

pub record Extractor : Type 0 where
  pub kind : Text
  pub find_all : Text → List Text

abbrev pub max_failure_evidence_size : ℕ
max_failure_evidence_size = 256

unfoldable pub has_control : Text → Bool
has_control [] = false
has_control (c ∷ cs) = is_control c || has_control cs

-- The order of the evidence: by kind, then by value.
unfoldable pub evidence_before : Evidence → Evidence → Bool
evidence_before a b =
    if not (equal a.kind b.kind) then text_lt a.kind b.kind else text_lt a.value b.value

abbrev pub same_evidence : Evidence → Evidence → Bool
same_evidence a b = equal a.kind b.kind && equal a.value b.value

-- unique[kind + "\x00" + value] = evidence
abbrev pub add_unique : Evidence → List Evidence → List Evidence
add_unique e es = if any (same_evidence e) es then es else e ∷ es

module _ (patterns : Patterns) where
  unfoldable pub sanitize_failure_evidence : Text → Text
  sanitize_failure_evidence value =
      let (redacted, changed) = Redact.text patterns (trim_space value) in
      if equal redacted [] || ltb max_failure_evidence_size (byte_len redacted)
      then []
      else if has_control redacted
      then []
      else redacted

  -- The loop over the matches of one expression.
  unfoldable pub collect_matches : Text → List Text → List Evidence → List Evidence
  collect_matches kind [] unique = unique
  collect_matches kind (found ∷ rest) unique =
      let value = sanitize_failure_evidence found in
      collect_matches kind rest (
        if equal value []
        then unique
        else add_unique (record { kind = kind; value = value }) unique)

  unfoldable pub collect_all : List Extractor → Text → List Evidence → List Evidence
  unfolding collect_matches
  collect_all [] output unique = unique
  collect_all (extractor ∷ rest) output unique =
      collect_all rest output (collect_matches extractor.kind (extractor.find_all output) unique)

  -- Extract…FailureEvidence: none where the output is too large.
  unfoldable pub extract_failure_evidence : List Extractor → Text → Option (List Evidence)
  unfolding collect_all
  extract_failure_evidence extractors output =
      if ltb 8192 (byte_len output)
      then none
      else some (sort evidence_before (collect_all extractors output []))
