-- ===== src/Lib.antt =====
-- Verification of solomon, a local assistant that diagnoses the command line in front of a shell: it
-- names a typo or a known mistake, suggests a repair, and in some modes interrupts or rewrites.
--
-- The parts, and how they meet:
--   * Diagnose models internal/diagnose/engine.go. Diagnose.Engine.Check is CheckShellContext: a
--     line is tokenized for its shell (Diagnose.Tokens for the plain tokenizer, Diagnose.Shells for
--     those of bash, zsh, fish and PowerShell), and its words are given to commandDecision and
--     semanticDecision (Diagnose.Engine.Repairs) and pathDecision (Diagnose.Engine.Paths). These rank
--     candidates by spelling (Diagnose.Distance, Diagnose.Rank), find commands among the words
--     (Diagnose.Commands) and classify the repaired line (Diagnose.Risk). Diagnose.Engine.Modes is
--     finish, applyMode and the tests they use, and Diagnose.Replace puts a repair into the line.
--   * Redact models internal/redact/redact.go, by which every suggestion is shown.
--   * Config models internal/config/config.go: validity (Config.Defs), the rule exceptions
--     (Config.Exceptions), migration and the end of decode (Config.Migration), Set and the
--     session overrides (Config.Settings), the trust of project files with the permissions of
--     internal/config/ownership_unix.go and internal/filesystem (Config.Project), and Load with
--     decode (Config.Load).
--   * Daemon models internal/daemon: the protocol (Daemon.Protocol), the pending confirmations
--     and undos (Daemon.Tokens), learning (Daemon.Learning), the evidence of failures with the
--     extractors of internal/packs (Daemon.Evidence), and Service.Handle (Daemon.Service,
--     Daemon.PreSend, Daemon.Handle). It reaches the engine and the packs through the fields of a
--     `Setting`, for which Diagnose.Engine.Check.check_shell can stand.
--   * Packs models internal/packs: the templates of packs.go (Packs.Templates) and the enabled packs
--     of state.go (Packs.State); the versions of compatibility.go (Packs.Versions); the data of packs,
--     Pack.Validate, CheckCompatibility and Compile (Packs.Rules); Resolve and the matches of
--     resolver.go and runtime.go (Packs.Runtime), which stand for the packs of a `Setting`; the keyring
--     and its signatures (Packs.Keyring); and the managed directory, of which Packs.Store installs
--     and uninstalls, Packs.Loading loads, and Packs.Activation activates a staged pack and rolls it
--     back. Packs.Candidates is candidates.go.
--   * Diagnose.Executables is the cache of the executables of PATH in engine.go, Diagnose.Diff the
--     two ways to show a change, and Diagnose.Protocol the events and records of a decision.
--   * Capture models internal/capture/relay.go: the bounded output behind the last marker.
--   * Release models internal/updatechannel (Release.Channel), internal/releasecompat
--     (Release.Matrix), internal/releasepolicy (Release.Revocation) and internal/runtimecheck
--     (Release.RuntimeCheck).
--   * Shell models internal/shell/actions.go: what the shell integration does with a response.
--   * Prelude holds what the parts share; Examples runs them on concrete inputs.
--
-- How the code is represented:
--   * A string is the list of its code points, and its byte length is the sum of their widths in
--     UTF-8; a string that is no valid UTF-8 does not occur. ToLower, ToUpper and EqualFold are
--     those of ASCII letters. The daemon's cut of a failure's output at 8192 bytes drops a character
--     that the cut goes through, where the code keeps its first bytes.
--   * A string that the code compares with named constants is a data type with a constructor for
--     each, and one for any other. A stage that is not pre has the constructor post: the code
--     compares stages only with pre. check_shell takes the limits with the defaults put in.
--   * A confidence is an exact fraction: the code's floating point value, of words far shorter
--     than 2^50 letters, is on the same side of the thresholds 0.60 to 0.90.
--   * Numbers that the code keeps non-negative are natural numbers. A configured number below 1 is
--     refused by the code, and 0 stands for it. No number comes near the width of an int: byte
--     counts are bounded by the length of the input.
--   * What the regular expressions of the redaction replace, and what those of the evidence find,
--     are parameters. So are the file system, PATH, the clock, the context's cancellation, the
--     resolver of the packs and the random source; what regexp does with the expressions of packs;
--     base64, ed25519, the package json and the hash of an artifact. What the code relies on of them is a
--     hypothesis: that base64 decodes what it encoded, and that what it encodes has no tab.
--   * The directory of packs is a table of its entries. Which calls of the file system fail is a
--     parameter; a write puts all of a file or fails, since the code renames a temporary file.
--   * A map is the list of its entries. A loop over a map whose order the code does not fix is
--     modelled where its result does not depend on the order.
--   * sort.Slice is an insertion sort: the orders are total on what is sorted.
--   * A loop of migrate runs the versions that are left up to the current one, 7; strconv.Itoa
--     produces at most as many digits as the number plus one. sort.SearchStrings runs as many
--     rounds as there are texts, and each round leaves less than half of them. The loop of the relay's
--     Feed runs one round more than bytes are pending, and each round takes a marker away. No other
--     loop is on fuel.
--
-- Not modelled: the shell scripts, the transport of the daemon, the database, the embedded packs, the
-- system access and the command line; of the parts above, the writing of the configuration, and the
-- reading and writing of the keyring and of the enabled packs. They are input and output around these
-- parts, or data that the parameters above stand for.
pub mod Prelude
pub mod Diagnose
pub mod Redact
pub mod Config
pub mod Packs
pub mod Shell
pub mod Capture
pub mod Release
pub mod Daemon
pub mod Examples
