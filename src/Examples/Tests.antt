-- ===== src/Examples/Tests.antt =====
-- Tests of single functions.
use solomon.Prelude.{
  ◌≡◌, refl, true, false, ◌&&◌, some, [], ◌∷◌, ok, err, codes, equal, elem, text_lt, has_prefix,
  has_suffix, contains_rune, contains_any, lower_rune, to_lower, to_upper, is_space, trim_space,
  cut_at, join_with, width, insert, sort, trim_left_space, upper_rune, trim_left_space,
}
use solomon.Redact.{no_patterns}
use solomon.Redact
use solomon.Diagnose.Tokens.{tokenize, incomplete_shell_input}
use solomon.Diagnose.Shells.{tokenize_for_shell}
use solomon.Diagnose.Rank.{nearest}
use solomon.Diagnose.Decision.{itoa}
use solomon.Diagnose.Distance.{damerau_levenshtein}
use solomon.Diagnose.Commands.{command_positions, command_name}
use solomon.Diagnose.Replace.{replace_token_occurrence}
use solomon.Packs.State.{identifier, enable, enabled_for}
use solomon.Packs.Templates.{
  ends_with_dollar, numeric_only, unavailable_capture, validate_transformation_template,
}

state_tests :
    (identifier (codes "core-git2") ≡ true)
    × (identifier (codes "core--git") ≡ false)
    × (identifier (codes "core-") ≡ false)
    × (identifier (codes "Core") ≡ false)
    × (enable (codes "a" ∷ codes "c" ∷ []) (codes "b")
        ≡ (codes "a" ∷ codes "b" ∷ codes "c" ∷ [], true))
    × (enabled_for (codes "a" ∷ codes "b" ∷ codes "c" ∷ []) (codes "c") ≡ true)
unfolding solomon.Packs.State.identifier solomon.Packs.State.search_between
    solomon.Packs.State.search_strings solomon.Packs.State.enabled_for solomon.Packs.State.enable
    solomon.Packs.State.disable solomon.Packs.State.validate_from solomon.Packs.State.validate
    solomon.Prelude.insert solomon.Prelude.sort solomon.Prelude.equal solomon.Prelude.text_lt
state_tests = (refl, refl, refl, refl, refl, refl)

template_tests :
    (validate_transformation_template (codes "push $1 $$ $12x") 12 ≡ ok tt)
    × (validate_transformation_template (codes "push $12") 11 ≡ err unavailable_capture)
    × (validate_transformation_template (codes "push $0") 11 ≡ err numeric_only)
    × (validate_transformation_template (codes "a$") 11 ≡ err ends_with_dollar)
unfolding solomon.Packs.Templates.scan solomon.Packs.Templates.validate_transformation_template
    solomon.Packs.Templates.validate_explanation_template
    solomon.Packs.Templates.validate_risk_metadata
    solomon.Packs.Templates.safe_transformation_template
template_tests = (refl, refl, refl, refl)

flag_redacted :
    Redact.command no_patterns
      (codes "curl" ∷ codes "--api-key" ∷ codes "abc" ∷ codes "MY_TOKEN=x" ∷ [])
    ≡ (codes "curl --api-key [REDACTED] MY_TOKEN=[REDACTED]", true)
unfolding solomon.Prelude.equal solomon.Prelude.has_prefix solomon.Prelude.has_suffix
    solomon.Prelude.contains_rune solomon.Prelude.upper_rune solomon.Prelude.to_upper
    solomon.Prelude.cut_at solomon.Prelude.join_with solomon.Redact.secret_name
    solomon.Redact.secret_flag solomon.Redact.secret_assignment_in solomon.Redact.text
    solomon.Redact.word_value solomon.Redact.redact_words solomon.Redact.command
    solomon.Redact.contains_secret
flag_redacted = refl

words_of :
    tokenize (codes "git  commit -m 'a b'&&ls \"x\\\"y\" ''")
    ≡ ok (
        codes "git"
        ∷ codes "commit"
        ∷ codes "-m"
        ∷ codes "a b"
        ∷ codes "&&"
        ∷ codes "ls"
        ∷ codes "x\"y"
        ∷ []
        ∷ [])
unfolding solomon.Diagnose.Tokens.flush solomon.Diagnose.Tokens.compound_operator
    solomon.Diagnose.Tokens.tokenize_step solomon.Diagnose.Tokens.tokenize_loop
    solomon.Diagnose.Tokens.tokenize_end solomon.Diagnose.Tokens.tokenize
words_of = refl

unfinished : tokenize (codes "echo 'a") ≡ err incomplete_shell_input
unfolding solomon.Diagnose.Tokens.flush solomon.Diagnose.Tokens.compound_operator
    solomon.Diagnose.Tokens.tokenize_step solomon.Diagnose.Tokens.tokenize_loop
    solomon.Diagnose.Tokens.tokenize_end solomon.Diagnose.Tokens.tokenize
unfinished = refl

zsh_words :
    tokenize_for_shell (codes "zsh") (codes "git comit -m 'a b' \"c\\d\"")
    ≡ ok (codes "git" ∷ codes "comit" ∷ codes "-m" ∷ codes "a b" ∷ codes "c\\d" ∷ [])
unfolding solomon.Diagnose.Commands.is_compound_operator solomon.Diagnose.Commands.is_shell_keyword
    solomon.Diagnose.Commands.assignment_word solomon.Diagnose.Commands.positions_from
    solomon.Diagnose.Commands.command_positions solomon.Diagnose.Commands.start_from
    solomon.Diagnose.Commands.command_start_at
    solomon.Diagnose.Commands.has_unsupported_shell_syntax solomon.Diagnose.Commands.command_name
    solomon.Diagnose.Commands.has_argument solomon.Diagnose.Shells.unsafe_shell_character
    solomon.Diagnose.Shells.lex_step solomon.Diagnose.Shells.lex_loop
    solomon.Diagnose.Shells.lex_end solomon.Diagnose.Shells.tokenize_conservative
    solomon.Diagnose.Shells.tokenize_for_shell solomon.Diagnose.Shells.shell_command_supported
    solomon.Diagnose.Shells.rewrite_compatible solomon.Diagnose.Tokens.flush
    solomon.Diagnose.Tokens.compound_operator solomon.Diagnose.Tokens.tokenize_step
    solomon.Diagnose.Tokens.tokenize_loop solomon.Diagnose.Tokens.tokenize_end
    solomon.Diagnose.Tokens.tokenize solomon.Prelude.equal solomon.Prelude.elem
    solomon.Prelude.contains_rune solomon.Prelude.contains_any solomon.Prelude.lower_rune
    solomon.Prelude.to_lower solomon.Prelude.is_space solomon.Prelude.trim_left_space
    solomon.Prelude.trim_space
zsh_words = refl

nearest_status :
    nearest (codes "sttaus") (codes "stash" ∷ codes "status" ∷ codes "stage" ∷ [])
    ≡ (codes "status", 1)
unfolding solomon.Diagnose.Distance.damerau_levenshtein
    solomon.Diagnose.Rank.keyboard_adjacency_distance solomon.Diagnose.Rank.ranks_before
    solomon.Diagnose.Rank.measure solomon.Diagnose.Rank.rank_candidates
    solomon.Diagnose.Rank.nearest solomon.Diagnose.Rank.max_distance
    solomon.Diagnose.Rank.confidence solomon.Diagnose.Rank.meets_confidence_threshold
    solomon.Prelude.sort solomon.Prelude.equal solomon.Prelude.elem solomon.Prelude.text_lt
nearest_status = refl

some_digits : itoa 12048 ≡ codes "12048"
unfolding solomon.Diagnose.Decision.key_text solomon.Diagnose.Decision.message
    solomon.Diagnose.Decision.decision_output_size solomon.Diagnose.Decision.itoa
    solomon.Diagnose.Decision.collect_evidence solomon.Diagnose.Decision.token_occurrence
some_digits = refl

kitten : damerau_levenshtein (codes "kitten") (codes "sitting") ≡ 3
unfolding solomon.Diagnose.Distance.damerau_levenshtein
kitten = refl

sttaus : damerau_levenshtein (codes "sttaus") (codes "status") ≡ 1
unfolding solomon.Diagnose.Distance.damerau_levenshtein
sttaus = refl

positions_found :
    command_positions
      (codes "A=1" ∷ codes "sudo" ∷ codes "ls" ∷ codes "-l" ∷ codes "|" ∷ codes "wc" ∷ [])
    ≡ 2 ∷ 5 ∷ []
unfolding solomon.Diagnose.Commands.is_compound_operator solomon.Diagnose.Commands.is_shell_keyword
    solomon.Diagnose.Commands.assignment_word solomon.Diagnose.Commands.positions_from
    solomon.Diagnose.Commands.command_positions solomon.Diagnose.Commands.start_from
    solomon.Diagnose.Commands.command_start_at
    solomon.Diagnose.Commands.has_unsupported_shell_syntax solomon.Diagnose.Commands.command_name
    solomon.Diagnose.Commands.has_argument solomon.Prelude.equal solomon.Prelude.elem
    solomon.Prelude.cut_at
positions_found = refl

name_found : command_name (codes "/usr/bin/RM") ≡ codes "rm"
unfolding solomon.Diagnose.Commands.is_compound_operator solomon.Diagnose.Commands.is_shell_keyword
    solomon.Diagnose.Commands.assignment_word solomon.Diagnose.Commands.positions_from
    solomon.Diagnose.Commands.command_positions solomon.Diagnose.Commands.start_from
    solomon.Diagnose.Commands.command_start_at
    solomon.Diagnose.Commands.has_unsupported_shell_syntax solomon.Diagnose.Commands.command_name
    solomon.Diagnose.Commands.has_argument solomon.Prelude.lower_rune solomon.Prelude.to_lower
name_found = refl

second_replaced :
    replace_token_occurrence (codes "git sttaus 'sttaus'") (codes "sttaus") (codes "it's") 2
    ≡ some (codes "git sttaus 'it'\\''s'")
unfolding solomon.Diagnose.Replace.flush_range solomon.Diagnose.Replace.range_step
    solomon.Diagnose.Replace.range_loop solomon.Diagnose.Replace.shell_token_ranges
    solomon.Diagnose.Replace.slice_to solomon.Diagnose.Replace.slice_from
    solomon.Diagnose.Replace.escape_single solomon.Diagnose.Replace.escape_double
    solomon.Diagnose.Replace.quoted_replacement solomon.Diagnose.Replace.replace_in
    solomon.Diagnose.Replace.replace_token_occurrence solomon.Diagnose.Tokens.flush
    solomon.Diagnose.Tokens.compound_operator solomon.Diagnose.Tokens.tokenize_step
    solomon.Diagnose.Tokens.tokenize_loop solomon.Diagnose.Tokens.tokenize_end
    solomon.Diagnose.Tokens.tokenize solomon.Prelude.equal solomon.Prelude.width
second_replaced = refl
