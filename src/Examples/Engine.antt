-- ===== src/Examples/Engine.antt =====
-- Checks of the engine on a small system: two commands on PATH, an empty directory, no packs.
use solomon.Prelude.{
  ◌≤◌, ◌≡◌, refl, ◌⊎◌, true, false, ◌||◌, none, some, [], ◌∷◌, ◌++◌, Result, ok, err, Text, codes,
  equal, elem, text_lt, has_prefix, has_suffix, contains_rune, contains_any, lower_rune, to_lower,
  to_upper, is_space, is_control, trim_space, cut_at, split_at, fields, join_with, width, byte_len,
  insert, sort, trim_left_space, upper_rune, trim_left_space,
}
use solomon.Config.Defs.{Config, default, rewrite, interrupt, off, is_mode_off}
use solomon.Config.Exceptions.{has_rule_exception}
use solomon.Redact.{no_patterns}
use solomon.Diagnose.Rank.{confidence}
use solomon.Diagnose.Replace.{replace_token_occurrence}
use solomon.Diagnose.Decision.{
  Decision, empty_decision, no_decision, no_action, decision_output_size,
}
use solomon.Diagnose.Engine.Values.{EngineError, pre, Limits, World}
use solomon.Diagnose.Engine.Modes.{is_rewrite}
use solomon.Diagnose.Engine.Modes.Rewrites.{MayRewrite, MayInterrupt, is_interrupt, names_words}
use solomon.Diagnose.Commands.{command_positions}
use solomon.Diagnose.Engine.Repairs.{command_decision}
use solomon.Diagnose.Engine.Repairs.Sound.{IsRepair, command_decision-IsRepair}
use solomon.Diagnose.Engine.Check.{check_shell}
use solomon.Diagnose.Engine.Check.Guarantees.{
  check_shell-MayRewrite, check_shell-replace_token_occurrence, check_shell-MayInterrupt,
  check_shell_size,
}

abbrev small_world : World
small_world = record {
  patterns = no_patterns;
  windows = false;
  cancelled = λ poll. false;
  elapsed = 1000;
  executables = codes "kubernetes-cli" ∷ codes "ls" ∷ codes "whoami" ∷ [];
  command_exists = λ name. equal name (codes "ls") || equal name (codes "whoami");
  path_exists = λ path. false;
  read_dir = λ path. some [];
  join_path = λ a b. a ++ (b'/' ∷ b);
  resolver = none;
}

abbrev usual : Limits
usual = record { input_bytes = 8192; output_bytes = 8192; analysis_time = 1000000000 }

abbrev rewriting : Config
rewriting = record default { mode = rewrite; auto_apply_safe = true }

abbrev interrupting : Config
interrupting = record default { mode = interrupt }

abbrev typo : Text
typo = codes "whaomi"

abbrev long_typo : Text
long_typo = codes "kubernetes-cil"

abbrev decided : Result EngineError Decision → Decision
decided (ok d) = d
decided (err e) = no_decision

abbrev checked : Config → Text → Result EngineError Decision
checked config line = check_shell small_world config usual (codes "zsh") line pre

abbrev rewritten : Decision
rewritten = decided (checked rewriting typo)

abbrev interrupted : Decision
interrupted = decided (checked interrupting long_typo)

runs :
    (rewritten.suggestion ≡ codes "whoami")
    × (checked rewriting typo ≡ ok rewritten)
    × (is_rewrite rewritten.action ≡ true)
    × (names_words rewritten ≡ true)
    × (checked interrupting long_typo ≡ ok interrupted)
    × (is_interrupt interrupted.action ≡ true)
    × (equal interrupted.suggestion [] ≡ false)
    × (checked default typo ≡ ok (decided (checked default typo)))
unfolding solomon.Config.Exceptions.has_command solomon.Config.Exceptions.has_rule_exception
    solomon.Diagnose.Commands.is_compound_operator solomon.Diagnose.Commands.is_shell_keyword
    solomon.Diagnose.Commands.assignment_word solomon.Diagnose.Commands.positions_from
    solomon.Diagnose.Commands.command_positions solomon.Diagnose.Commands.start_from
    solomon.Diagnose.Commands.command_start_at
    solomon.Diagnose.Commands.has_unsupported_shell_syntax solomon.Diagnose.Commands.command_name
    solomon.Diagnose.Decision.key_text solomon.Diagnose.Decision.message
    solomon.Diagnose.Decision.decision_output_size solomon.Diagnose.Decision.itoa
    solomon.Diagnose.Decision.collect_evidence solomon.Diagnose.Decision.token_occurrence
    solomon.Diagnose.Distance.damerau_levenshtein solomon.Diagnose.Engine.Check.attempt
    solomon.Diagnose.Engine.Check.check_end solomon.Diagnose.Engine.Check.check_words
    solomon.Diagnose.Engine.Check.check_tokens solomon.Diagnose.Engine.Check.check_shell
    solomon.Diagnose.Engine.Modes.semantic_rewrite_allowed
    solomon.Diagnose.Engine.Modes.intrinsic_rewrite_eligible
    solomon.Diagnose.Engine.Modes.safe_auto_apply solomon.Diagnose.Engine.Modes.should_interrupt
    solomon.Diagnose.Engine.Modes.apply_mode solomon.Diagnose.Engine.Modes.downgrade
    solomon.Diagnose.Engine.Modes.fill_buffer solomon.Diagnose.Engine.Modes.finish
    solomon.Diagnose.Engine.Paths.split_path solomon.Diagnose.Engine.Paths.path_candidates
    solomon.Diagnose.Engine.Paths.path_from solomon.Diagnose.Engine.Paths.path_decision
    solomon.Diagnose.Engine.Repairs.repair solomon.Diagnose.Engine.Repairs.is_path_qualified
    solomon.Diagnose.Engine.Repairs.command_from solomon.Diagnose.Engine.Repairs.command_decision
    solomon.Diagnose.Engine.Repairs.semantic_decision
    solomon.Diagnose.Rank.keyboard_adjacency_distance solomon.Diagnose.Rank.ranks_before
    solomon.Diagnose.Rank.measure solomon.Diagnose.Rank.rank_candidates
    solomon.Diagnose.Rank.nearest solomon.Diagnose.Rank.max_distance
    solomon.Diagnose.Rank.confidence solomon.Diagnose.Rank.meets_confidence_threshold
    solomon.Diagnose.Replace.flush_range solomon.Diagnose.Replace.range_step
    solomon.Diagnose.Replace.range_loop solomon.Diagnose.Replace.shell_token_ranges
    solomon.Diagnose.Replace.slice_to solomon.Diagnose.Replace.slice_from
    solomon.Diagnose.Replace.escape_single solomon.Diagnose.Replace.escape_double
    solomon.Diagnose.Replace.quoted_replacement solomon.Diagnose.Replace.replace_in
    solomon.Diagnose.Replace.replace_token_occurrence solomon.Diagnose.Risk.some_start
    solomon.Diagnose.Risk.escalates_privileges solomon.Diagnose.Risk.has_network_effect
    solomon.Diagnose.Risk.has_shell_redirection solomon.Diagnose.Risk.all_known_safe
    solomon.Diagnose.Risk.known_safe_command_line solomon.Diagnose.Risk.some_mutates
    solomon.Diagnose.Risk.mutates_filesystem solomon.Diagnose.Risk.assess_risk
    solomon.Diagnose.Risk.classify solomon.Diagnose.Shells.unsafe_shell_character
    solomon.Diagnose.Shells.lex_step solomon.Diagnose.Shells.lex_loop
    solomon.Diagnose.Shells.lex_end solomon.Diagnose.Shells.tokenize_conservative
    solomon.Diagnose.Shells.tokenize_for_shell solomon.Diagnose.Shells.shell_command_supported
    solomon.Diagnose.Shells.rewrite_compatible solomon.Diagnose.Tokens.flush
    solomon.Diagnose.Tokens.compound_operator solomon.Diagnose.Tokens.tokenize_step
    solomon.Diagnose.Tokens.tokenize_loop solomon.Diagnose.Tokens.tokenize_end
    solomon.Diagnose.Tokens.tokenize solomon.Prelude.insert solomon.Prelude.sort
    solomon.Prelude.equal solomon.Prelude.elem solomon.Prelude.text_lt solomon.Prelude.has_prefix
    solomon.Prelude.has_suffix solomon.Prelude.contains_rune solomon.Prelude.contains_any
    solomon.Prelude.lower_rune solomon.Prelude.upper_rune solomon.Prelude.to_lower
    solomon.Prelude.to_upper solomon.Prelude.is_space solomon.Prelude.is_control
    solomon.Prelude.trim_left_space solomon.Prelude.trim_space solomon.Prelude.cut_at
    solomon.Prelude.split_at solomon.Prelude.fields solomon.Prelude.join_with solomon.Prelude.width
    solomon.Prelude.byte_len solomon.Redact.secret_name solomon.Redact.secret_flag
    solomon.Redact.secret_assignment_in solomon.Redact.text solomon.Redact.word_value
    solomon.Redact.redact_words solomon.Redact.command solomon.Redact.contains_secret
    solomon.Config.Defs.default
runs = (refl, refl, refl, refl, refl, refl, refl, refl)

check_shell-MayRewrite_example : MayRewrite rewriting (codes "zsh") typo pre rewritten
check_shell-MayRewrite_example =
    check_shell-MayRewrite small_world rewriting usual (codes "zsh") typo pre rewritten runs.1
      runs.2

check_shell-replace_token_occurrence_example :
    replace_token_occurrence typo rewritten.original rewritten.replacement rewritten.occurrence
    ≡ some rewritten.suggestion
check_shell-replace_token_occurrence_example =
    check_shell-replace_token_occurrence small_world rewriting usual (codes "zsh") typo pre
      rewritten runs.1 runs.2 runs.3

check_shell-MayInterrupt_example : MayInterrupt interrupting pre interrupted
check_shell-MayInterrupt_example =
    check_shell-MayInterrupt small_world interrupting usual (codes "zsh") long_typo pre interrupted
      runs.4 runs.5

check_shell_size_example : decision_output_size interrupted ≤ 8192
check_shell_size_example =
    check_shell_size small_world interrupting usual (codes "zsh") long_typo pre interrupted runs.4
      runs.6

abbrev repaired : Decision
repaired = decided (command_decision small_world (typo ∷ []))

repairs : command_decision small_world (typo ∷ []) ≡ ok repaired
unfolding solomon.Config.Exceptions.has_command solomon.Config.Exceptions.has_rule_exception
    solomon.Diagnose.Commands.is_compound_operator solomon.Diagnose.Commands.is_shell_keyword
    solomon.Diagnose.Commands.assignment_word solomon.Diagnose.Commands.positions_from
    solomon.Diagnose.Commands.command_positions solomon.Diagnose.Commands.start_from
    solomon.Diagnose.Commands.command_start_at
    solomon.Diagnose.Commands.has_unsupported_shell_syntax solomon.Diagnose.Commands.command_name
    solomon.Diagnose.Decision.key_text solomon.Diagnose.Decision.message
    solomon.Diagnose.Decision.decision_output_size solomon.Diagnose.Decision.itoa
    solomon.Diagnose.Decision.collect_evidence solomon.Diagnose.Decision.token_occurrence
    solomon.Diagnose.Distance.damerau_levenshtein solomon.Diagnose.Engine.Check.attempt
    solomon.Diagnose.Engine.Check.check_end solomon.Diagnose.Engine.Check.check_words
    solomon.Diagnose.Engine.Check.check_tokens solomon.Diagnose.Engine.Check.check_shell
    solomon.Diagnose.Engine.Modes.semantic_rewrite_allowed
    solomon.Diagnose.Engine.Modes.intrinsic_rewrite_eligible
    solomon.Diagnose.Engine.Modes.safe_auto_apply solomon.Diagnose.Engine.Modes.should_interrupt
    solomon.Diagnose.Engine.Modes.apply_mode solomon.Diagnose.Engine.Modes.downgrade
    solomon.Diagnose.Engine.Modes.fill_buffer solomon.Diagnose.Engine.Modes.finish
    solomon.Diagnose.Engine.Paths.split_path solomon.Diagnose.Engine.Paths.path_candidates
    solomon.Diagnose.Engine.Paths.path_from solomon.Diagnose.Engine.Paths.path_decision
    solomon.Diagnose.Engine.Repairs.repair solomon.Diagnose.Engine.Repairs.is_path_qualified
    solomon.Diagnose.Engine.Repairs.command_from solomon.Diagnose.Engine.Repairs.command_decision
    solomon.Diagnose.Engine.Repairs.semantic_decision
    solomon.Diagnose.Rank.keyboard_adjacency_distance solomon.Diagnose.Rank.ranks_before
    solomon.Diagnose.Rank.measure solomon.Diagnose.Rank.rank_candidates
    solomon.Diagnose.Rank.nearest solomon.Diagnose.Rank.max_distance
    solomon.Diagnose.Rank.confidence solomon.Diagnose.Rank.meets_confidence_threshold
    solomon.Diagnose.Replace.flush_range solomon.Diagnose.Replace.range_step
    solomon.Diagnose.Replace.range_loop solomon.Diagnose.Replace.shell_token_ranges
    solomon.Diagnose.Replace.slice_to solomon.Diagnose.Replace.slice_from
    solomon.Diagnose.Replace.escape_single solomon.Diagnose.Replace.escape_double
    solomon.Diagnose.Replace.quoted_replacement solomon.Diagnose.Replace.replace_in
    solomon.Diagnose.Replace.replace_token_occurrence solomon.Diagnose.Risk.some_start
    solomon.Diagnose.Risk.escalates_privileges solomon.Diagnose.Risk.has_network_effect
    solomon.Diagnose.Risk.has_shell_redirection solomon.Diagnose.Risk.all_known_safe
    solomon.Diagnose.Risk.known_safe_command_line solomon.Diagnose.Risk.some_mutates
    solomon.Diagnose.Risk.mutates_filesystem solomon.Diagnose.Risk.assess_risk
    solomon.Diagnose.Risk.classify solomon.Diagnose.Shells.unsafe_shell_character
    solomon.Diagnose.Shells.lex_step solomon.Diagnose.Shells.lex_loop
    solomon.Diagnose.Shells.lex_end solomon.Diagnose.Shells.tokenize_conservative
    solomon.Diagnose.Shells.tokenize_for_shell solomon.Diagnose.Shells.shell_command_supported
    solomon.Diagnose.Shells.rewrite_compatible solomon.Diagnose.Tokens.flush
    solomon.Diagnose.Tokens.compound_operator solomon.Diagnose.Tokens.tokenize_step
    solomon.Diagnose.Tokens.tokenize_loop solomon.Diagnose.Tokens.tokenize_end
    solomon.Diagnose.Tokens.tokenize solomon.Prelude.insert solomon.Prelude.sort
    solomon.Prelude.equal solomon.Prelude.elem solomon.Prelude.text_lt solomon.Prelude.has_prefix
    solomon.Prelude.has_suffix solomon.Prelude.contains_rune solomon.Prelude.contains_any
    solomon.Prelude.lower_rune solomon.Prelude.upper_rune solomon.Prelude.to_lower
    solomon.Prelude.to_upper solomon.Prelude.is_space solomon.Prelude.is_control
    solomon.Prelude.trim_left_space solomon.Prelude.trim_space solomon.Prelude.cut_at
    solomon.Prelude.split_at solomon.Prelude.fields solomon.Prelude.join_with solomon.Prelude.width
    solomon.Prelude.byte_len solomon.Redact.secret_name solomon.Redact.secret_flag
    solomon.Redact.secret_assignment_in solomon.Redact.text solomon.Redact.word_value
    solomon.Redact.redact_words solomon.Redact.command solomon.Redact.contains_secret
    solomon.Config.Defs.default
repairs = refl

command_decision-IsRepair_example :
    (repaired ≡ empty_decision)
    ⊎ IsRepair small_world (typo ∷ []) (command_positions (typo ∷ [])) repaired
command_decision-IsRepair_example =
    command_decision-IsRepair small_world (typo ∷ []) repaired repairs
