-- ===== src/Diagnose/Engine/Values.antt =====
-- The types of internal/diagnose/engine.go: requests' limits, the semantic matches, and the `World` that a
-- check runs in: the file system, PATH, the clock, the context and the resolver of semantic packs.
-- `elapsed` is the time from the start of a check to its end, and `cancelled` is what ctx.Err
-- answers at each place that asks it.
use solomon.Prelude.{ℕ, Bool, Option, List, ◌==◌, if◌then◌else◌, Text}
use solomon.Redact.{Patterns}
use solomon.Diagnose.Risk.{Risk}

pub data EngineError : Type 0 where
  cancelled_error input_limit output_limit analysis_limit resolver_failed : EngineError

pub data Stage : Type 0 where
  pre post : Stage

-- The places that ask ctx.Err, those in loops with the loop's index.
pub data Poll : Type 0 where
  on_entry tokenized command_start command_listed semantic_start semantic_matched : Poll
  on_finish at_end : Poll
  command_word path_word : ℕ → Poll

pub record SemanticMatch : Type 0 where
  pub pack_id : Text
  pub rule_id : Text
  pub source : Text
  pub suggestion : Text
  pub cause : Text
  pub risk : Risk
  pub rationale : Text
  pub original : Text
  pub replacement : Text
  pub occurrence : ℕ

pub data Resolution : Type 0 where
  failed unmatched : Resolution
  matched : SemanticMatch → Resolution

pub record Limits : Type 0 where
  pub input_bytes : ℕ
  pub output_bytes : ℕ
  pub analysis_time : ℕ

pub record World : Type 0 where
  pub patterns : Patterns
  pub windows : Bool
  pub cancelled : Poll → Bool
  pub elapsed : ℕ
  pub executables : List Text
  pub command_exists : Text → Bool
  pub path_exists : Text → Bool
  pub read_dir : Text → Option (List Text)
  pub join_path : Text → Text → Text
  pub resolver : Option (List Text → Resolution)

-- Limits: a value that is not positive stands for the default; a second is 10^9 nanoseconds.
abbrev or_default : ℕ → ℕ → ℕ
or_default value default = if value == 0 then default else value

unfoldable pub limits : Limits → Limits
limits l = record {
  input_bytes = or_default l.input_bytes 8192;
  output_bytes = or_default l.output_bytes 8192;
  analysis_time = or_default l.analysis_time 1000000000;
}
