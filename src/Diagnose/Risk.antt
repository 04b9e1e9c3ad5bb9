-- ===== src/Diagnose/Risk.antt =====
-- The risk of a command line, of internal/diagnose/engine.go.
pub mod Safe
use solomon.Prelude.{
  ℕ, zero, suc, ◌+◌, ◌-◌, Bool, true, false, not, ◌&&◌, ◌||◌, none, some, List, [], ◌∷◌,
  if◌then◌else◌, any, Text, codes, equal, elem, has_prefix, contains_rune,
}
use solomon.Redact.{Patterns, contains_secret}
use solomon.Diagnose.Commands.{
  is_compound_operator, command_positions, command_start_at, command_name, has_argument,
}

-- `other` is any string that is none of the named constants.
pub data Risk : Type 0 where
  safe unknown high : Risk
  other : Text → Risk

pub data MessageKey : Type 0 where
  no_message cause_command_not_found consequence_command_rejects : MessageKey
  cause_unknown_git_subcommand consequence_git_exits : MessageKey
  cause_path_not_found consequence_path_may_fail : MessageKey
  risk_secret risk_privilege_escalation risk_network_effect : MessageKey
  risk_filesystem_mutation risk_recognized_safe risk_unknown : MessageKey

pub record RiskAssessment : Type 0 where
  pub risk : Risk
  pub rationale : MessageKey

abbrev pub privilege_escalation_commands : List Text
privilege_escalation_commands =
    codes "doas"
    ∷ codes "pkexec"
    ∷ codes "runas"
    ∷ codes "su"
    ∷ codes "sudo"
    ∷ codes "sudoedit"
    ∷ []

abbrev pub network_effect_commands : List Text
network_effect_commands =
    codes "curl"
    ∷ codes "ftp"
    ∷ codes "nc"
    ∷ codes "ncat"
    ∷ codes "netcat"
    ∷ codes "scp"
    ∷ codes "sftp"
    ∷ codes "ssh"
    ∷ codes "telnet"
    ∷ codes "tftp"
    ∷ codes "wget"
    ∷ []

abbrev pub safe_commands : List Text
safe_commands =
    codes "basename"
    ∷ codes "cat"
    ∷ codes "dirname"
    ∷ codes "echo"
    ∷ codes "head"
    ∷ codes "ls"
    ∷ codes "printf"
    ∷ codes "pwd"
    ∷ codes "readlink"
    ∷ codes "realpath"
    ∷ codes "stat"
    ∷ codes "true"
    ∷ codes "uname"
    ∷ codes "wc"
    ∷ codes "which"
    ∷ codes "whoami"
    ∷ []

abbrev pub filesystem_mutation_commands : List Text
filesystem_mutation_commands =
    codes "chgrp"
    ∷ codes "chmod"
    ∷ codes "chown"
    ∷ codes "cp"
    ∷ codes "dd"
    ∷ codes "install"
    ∷ codes "ln"
    ∷ codes "mkdir"
    ∷ codes "mkfifo"
    ∷ codes "mknod"
    ∷ codes "mkfs"
    ∷ codes "mv"
    ∷ codes "patch"
    ∷ codes "rm"
    ∷ codes "rmdir"
    ∷ codes "rsync"
    ∷ codes "shred"
    ∷ codes "tee"
    ∷ codes "touch"
    ∷ codes "truncate"
    ∷ codes "unlink"
    ∷ codes "wipefs"
    ∷ []

abbrev network_git_subcommands : List Text
network_git_subcommands =
    codes "clone" ∷ codes "fetch" ∷ codes "ls-remote" ∷ codes "pull" ∷ codes "push" ∷ []

abbrev safe_git_subcommands : List Text
safe_git_subcommands =
    codes "diff"
    ∷ codes "log"
    ∷ codes "ls-files"
    ∷ codes "rev-parse"
    ∷ codes "show"
    ∷ codes "status"
    ∷ []

unfoldable pub has_network_git_subcommand : List Text → Bool
has_network_git_subcommand [] = false
has_network_git_subcommand (word ∷ words) =
    if is_compound_operator word
    then false
    else if elem word network_git_subcommands
    then true
    else if not (has_prefix word (codes "-"))
    then false
    else has_network_git_subcommand words

unfoldable pub has_safe_git_subcommand : List Text → Bool
has_safe_git_subcommand [] = true
has_safe_git_subcommand (word ∷ words) =
    if is_compound_operator word
    then false
    else if has_prefix word (codes "-")
    then has_safe_git_subcommand words
    else elem word safe_git_subcommands

-- Does some command start pass the test on its word and the words behind it?
unfoldable pub some_start : (Text → List Text → Bool) → List Text → ℕ → List Text → Bool
some_start test words position [] = false
some_start test words position (word ∷ rest) =
    command_start_at words position && test word rest || some_start test words (position + 1) rest

abbrev pub escalates : Text → List Text → Bool
escalates word rest = elem (command_name word) privilege_escalation_commands

abbrev pub reaches_network : Text → List Text → Bool
reaches_network word rest =
    elem (command_name word) network_effect_commands
    || equal (command_name word) (codes "git") && has_network_git_subcommand rest

unfoldable pub escalates_privileges : List Text → Bool
unfolding some_start
escalates_privileges words = some_start escalates words 0 words

unfoldable pub has_network_effect : List Text → Bool
unfolding some_start
has_network_effect words = some_start reaches_network words 0 words

unfoldable pub has_shell_redirection : List Text → Bool
has_shell_redirection [] = false
has_shell_redirection (word ∷ words) = contains_rune word b'>' || has_shell_redirection words

-- words[position] and words[position+1:]
abbrev pub at_position : {A : Type 0} → (Text → List Text → A) → A → List Text → ℕ → A
at_position use_it missing [] position = missing
at_position use_it missing (word ∷ words) zero = use_it word words
at_position use_it missing (word ∷ words) (suc position) = at_position use_it missing words position

abbrev pub is_known_safe : Text → List Text → Bool
is_known_safe word rest =
    if equal (command_name word) (codes "git")
    then has_safe_git_subcommand rest
    else elem (command_name word) safe_commands

unfoldable pub all_known_safe : List Text → List ℕ → Bool
all_known_safe words [] = true
all_known_safe words (position ∷ positions) =
    at_position is_known_safe false words position && all_known_safe words positions

abbrev pub is_nil : List ℕ → Bool
is_nil [] = true
is_nil (p ∷ ps) = false

unfoldable pub known_safe_command_line : List Text → Bool
unfolding all_known_safe
known_safe_command_line words =
    if has_shell_redirection words
    then false
    else if is_nil (command_positions words)
    then false
    else all_known_safe words (command_positions words)

abbrev pub mutates : Text → List Text → Bool
mutates word rest =
    if elem (command_name word) filesystem_mutation_commands
    then true
    else if equal (command_name word) (codes "find")
    then has_argument rest (codes "-delete")
    else if equal (command_name word) (codes "sed") || equal (command_name word) (codes "perl")
    then has_argument rest (codes "-i") || has_argument rest (codes "--in-place")
    else false

unfoldable pub some_mutates : List Text → List ℕ → Bool
some_mutates words [] = false
some_mutates words (position ∷ positions) =
    at_position mutates false words position || some_mutates words positions

unfoldable pub mutates_filesystem : List Text → Bool
unfolding some_mutates
mutates_filesystem words = some_mutates words (command_positions words)

abbrev pub assessed : Risk → MessageKey → RiskAssessment
assessed r m = record { risk = r; rationale = m }

module _ (patterns : Patterns) where
  unfoldable pub assess_risk : List Text → Bool → RiskAssessment
  assess_risk words has_secret =
      if has_secret || contains_secret patterns words
      then assessed high risk_secret
      else if escalates_privileges words
      then assessed high risk_privilege_escalation
      else if has_network_effect words
      then assessed high risk_network_effect
      else if mutates_filesystem words
      then assessed high risk_filesystem_mutation
      else if known_safe_command_line words
      then assessed safe risk_recognized_safe
      else assessed unknown risk_unknown

  unfoldable pub classify : List Text → Bool → Risk
  unfolding assess_risk
  classify words has_secret = (assess_risk words has_secret).risk
