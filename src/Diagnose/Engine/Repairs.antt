-- ===== src/Diagnose/Engine/Repairs.antt =====
-- commandDecision and semanticDecision of internal/diagnose/engine.go.
pub mod Sound
use solomon.Prelude.{
  ℕ, Bool, true, false, not, ◌&&◌, ◌||◌, none, some, List, [], ◌∷◌, ◌++◌, leb, if◌then◌else◌,
  Result, ok, err, get_elem?, Text, codes, equal, contains_rune, contains_any,
}
use solomon.Redact.{Patterns}
use solomon.Redact
use solomon.Diagnose.Rank.{
  Confidence, RepairClass, command_class, semantic_class, nearest, max_distance, confidence,
  meets_confidence_threshold,
}
use solomon.Diagnose.Risk.{
  high, MessageKey, no_message, cause_command_not_found, consequence_command_rejects, risk_secret,
  assess_risk,
}
use solomon.Diagnose.Commands.{command_positions, has_unsupported_shell_syntax}
use solomon.Diagnose.Tokens.{TokenError}
use solomon.Diagnose.Shells.{tokenize_for_shell}
use solomon.Diagnose.Decision.{
  no_action, Evidence, Decision, adapter_protocol_version, message, valid_risk, empty_decision,
  collect_evidence, evidence_of, token_occurrence, set, itoa,
}
use solomon.Diagnose.Engine.Values.{
  EngineError, cancelled_error, resolver_failed, command_start, command_listed, semantic_start,
  semantic_matched, command_word, SemanticMatch, Resolution, failed, unmatched, matched, World,
}

abbrev pub no_words : List Text → Bool
no_words [] = true
no_words (w ∷ ws) = false

module _ (world : World) where
  -- The decision on a word that is replaced by its nearest candidate.
  unfoldable pub repair :
      RepairClass
      → MessageKey
      → MessageKey
      → Text
      → List Text
      → ℕ
      → Text
      → Text
      → ℕ
      → Confidence
      → Decision
  repair class cause consequence resolver words position word replacement distance value =
      let replaced = set words position replacement in
      let (suggestion, has_secret) = Redact.command world.patterns replaced in
      let assessment = assess_risk world.patterns replaced has_secret in
      record {
        version = adapter_protocol_version;
        action = no_action;
        rewrite_eligible = false;
        cause = message cause;
        cause_key = cause;
        consequence = message consequence;
        consequence_key = consequence;
        suggestion = suggestion;
        class = class;
        evidence = collect_evidence class resolver distance value;
        confidence = value;
        risk = assessment.risk;
        risk_rationale = message assessment.rationale;
        risk_rationale_key = assessment.rationale;
        incomplete = false;
        trace = (codes "resolver:" ++ resolver) ∷ (codes "distance:" ++ itoa distance) ∷ [];
        original = word;
        replacement = replacement;
        occurrence = token_occurrence words position;
      }

  unfoldable pub is_path_qualified : Text → Bool
  is_path_qualified value =
      if world.windows then contains_any value (codes "/\\") else contains_rune value b'/'

  -- Is the nearest candidate near enough, and sure enough for the class?
  abbrev pub is_near : RepairClass → Text → Text → ℕ → Bool
  is_near class word best distance =
      not (equal best [])
      && leb distance (max_distance word)
      && meets_confidence_threshold class (confidence word best)

  -- The loop of commandDecision over the command positions.
  unfoldable pub command_from : List Text → List ℕ → Result EngineError Decision
  command_from words [] = ok empty_decision
  command_from words (position ∷ positions) =
      let next = command_from words positions in
      if world.cancelled (command_word position)
      then err cancelled_error
      else elim (get_elem? words position) [
        | none ↦ next
        | some word ↦
            if is_path_qualified word || world.command_exists word
            then next
            else let (best, distance) = nearest word world.executables in
              if is_near command_class word best distance
              then ok (
                  repair command_class cause_command_not_found consequence_command_rejects
                    (codes "path") words position word best distance (confidence word best))
              else next
      ]

  unfoldable pub command_decision : List Text → Result EngineError Decision
  unfolding command_from
  command_decision words =
      if world.cancelled command_start
      then err cancelled_error
      else if world.cancelled command_listed
      then err cancelled_error
      else command_from words (command_positions words)

  abbrev pub is_usable : SemanticMatch → Bool
  is_usable match =
      not (equal match.pack_id [])
      && not (equal match.rule_id [])
      && not (equal match.suggestion [])
      && valid_risk match.risk

  abbrev source_evidence : Text → List Evidence
  source_evidence source = if equal source [] then [] else evidence_of (codes "source") source ∷ []

  -- The decision on a match, once its suggestion is split into words.
  unfoldable pub semantic_repair : SemanticMatch → List Text → Decision
  semantic_repair match words =
      let (suggestion, has_secret) = Redact.command world.patterns words in
      record {
        version = adapter_protocol_version;
        action = no_action;
        rewrite_eligible = false;
        cause = match.cause;
        cause_key = no_message;
        consequence = [];
        consequence_key = no_message;
        suggestion = suggestion;
        class = semantic_class;
        evidence =
            evidence_of (codes "resolver") (codes "curated")
            ∷ evidence_of (codes "pack") match.pack_id
            ∷ evidence_of (codes "rule") match.rule_id
            ∷ source_evidence match.source;
        confidence = record { part = 1; total = 1 };
        risk = if has_secret then high else match.risk;
        risk_rationale = if has_secret then message risk_secret else match.rationale;
        risk_rationale_key = if has_secret then risk_secret else no_message;
        incomplete = false;
        trace = (codes "pack:" ++ match.pack_id) ∷ (codes "rule:" ++ match.rule_id) ∷ [];
        original = match.original;
        replacement = match.replacement;
        occurrence = match.occurrence;
      }

  abbrev semantic_words : SemanticMatch → Result TokenError (List Text) → Decision
  semantic_words match (err e) = empty_decision
  semantic_words match (ok words) =
      if no_words words || has_unsupported_shell_syntax words
      then empty_decision
      else semantic_repair match words

  unfoldable pub resolve_match : Text → Resolution → Result EngineError Decision
  resolve_match shell_name failed = err resolver_failed
  resolve_match shell_name unmatched =
      if world.cancelled semantic_matched then err cancelled_error else ok empty_decision
  resolve_match shell_name (matched match) =
      if world.cancelled semantic_matched
      then err cancelled_error
      else if not (is_usable match)
      then ok empty_decision
      else ok (semantic_words match (tokenize_for_shell shell_name match.suggestion))

  unfoldable pub semantic_decision : Text → List Text → Result EngineError Decision
  unfolding resolve_match
  semantic_decision shell_name words =
      if world.cancelled semantic_start then err cancelled_error else elim world.resolver [
        | none ↦ ok empty_decision
        | some resolve ↦ resolve_match shell_name (resolve words)
      ]
