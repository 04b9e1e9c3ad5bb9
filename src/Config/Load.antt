-- ===== src/Config/Load.antt =====
-- Load of internal/config/config.go.
pub mod Trusted
use solomon.Prelude.{
  ℕ, Bool, true, not, ◌||◌, Option, none, some, List, ◌∷◌, map, leb, if◌then◌else◌, Result, ok, err,
  ◌>>=◌, ◌>>◌, Text, codes, equal, has_prefix, fields, ◌/◌,
}
use solomon.Daemon.Tables.{Table, find, delete}
use solomon.Config.Defs.{ConfigError, parse_failure, Config, default}
use solomon.Config.Migration.{Version, pos, negative, finish_decode}
use solomon.Config.Project.{
  FilePath, Info, Lookup, missing, failing, found, Files, is_regular, trusted_project, project_path,
}
use solomon.Config.Settings.{session_override_keys, session_values, apply_session_overrides}

pub data Contents : Type 0 where
  no_file unreadable : Contents
  contents : List ℕ → Contents

-- What json.Unmarshal makes of a file: an object has the raw value of each of its fields.
pub data Json : Type 0 where
  no_json null_json other_json : Json
  object : Table (List ℕ) → Json

-- The system under Load: filepath.Clean of an absolute path, the files, and the package json: the
-- fields of an object, an integer, and a strict decoder of fields on top of a configuration.
pub record System : Type 0 where
  pub files : Files
  pub clean : Text → FilePath
  pub read : FilePath → Contents
  pub parse_object : List ℕ → Json
  pub parse_integer : List ℕ → Option Version
  pub decode_fields : Table (List ℕ) → Config → Option Config

-- Paths, where the functions that fail give none; without a listing of the environment, `environ`
-- is none.
pub record Paths : Type 0 where
  pub home : Option FilePath
  pub cwd : Option FilePath
  pub env : Text → Text
  pub environ : Option (List Text)

pub data LoadError : Type 0 where
  no_home : LoadError
  file_failed : FilePath → LoadError
  bad_config : ConfigError → LoadError

abbrev pub or_parse_failure : {A : Type 0} → Option A → Result ConfigError A
or_parse_failure none = err parse_failure
or_parse_failure (some a) = ok a

abbrev pub fields_of : Json → Option (Table (List ℕ))
fields_of (object fields) = some fields
fields_of json = none

abbrev pub at_most_6 : Version → Bool
at_most_6 (pos n) = leb n 6
at_most_6 (negative n) = true

-- The fields that decode drops: two of every file, and one of a file of a version up to 6.
unfoldable pub without_retired : Table (List ℕ) → Table (List ℕ)
without_retired fields =
    delete (delete fields (codes "registry_enabled")) (codes "auto_update_enabled")

unfoldable pub without_legacy : Version → Table (List ℕ) → Table (List ℕ)
without_legacy version fields =
    if at_most_6 version then delete fields (codes "curated_auto_correct") else fields

abbrev pub load_failed : {A : Type 0} → Result ConfigError A → Result LoadError A
load_failed (ok a) = ok a
load_failed (err e) = err (bad_config e)

-- The directory under which the global configuration stands.
abbrev base_of : (Text → FilePath) → Text → Option FilePath → Result LoadError FilePath
base_of clean base (some home) =
    if has_prefix base (codes "/") then ok (clean base) else ok (codes ".config" ∷ home)
base_of clean base none = if has_prefix base (codes "/") then ok (clean base) else err no_home

module _ (s : System) where
  -- The version of a file; one without a version is of version 0.
  abbrev pub version_of : Option (List ℕ) → Result ConfigError Version
  version_of none = ok (pos 0)
  version_of (some value) =
      if equal value (codes "null")
      then err parse_failure
      else or_parse_failure (s.parse_integer value)

  unfoldable pub decode : List ℕ → Config → Result ConfigError Config
  decode bytes base = do
    all_fields ← or_parse_failure (fields_of (s.parse_object bytes))
    let fields = without_retired all_fields
    version ← version_of (find fields (codes "schema_version"))
    decoded ← or_parse_failure (s.decode_fields (without_legacy version fields) base)
    finish_decode decoded version

  abbrev pub decoded_file : FilePath → Config → Contents → Result LoadError Config
  decoded_file path base (contents bytes) = load_failed (decode bytes base)
  decoded_file path base bytes = err (file_failed path)

  abbrev pub merged : Config → FilePath → Lookup → Result LoadError Config
  merged base path missing = ok base
  merged base path failing = err (file_failed path)
  merged base path (found info) =
      let decoded = decoded_file path base (s.read path) in
      if not (is_regular info.kind) || not (trusted_project s.files path) then ok base else decoded

  unfoldable pub merge_approved_project : Config → FilePath → Result LoadError Config
  unfolding decode
  merge_approved_project base path = merged base path (s.files.lstat path)

  abbrev pub global_contents : FilePath → Contents → Result LoadError Config
  global_contents path no_file = ok default
  global_contents path bytes = decoded_file path default bytes

  unfoldable pub load_global : FilePath → Result LoadError Config
  unfolding decode
  load_global path = global_contents path (s.read path)

  unfoldable pub global_path : Paths → Result LoadError FilePath
  global_path paths = do
    base ← base_of s.clean (paths.env (codes "XDG_CONFIG_HOME")) paths.home
    ok (codes "config.json" ∷ codes "solomon" ∷ base)

  -- sessionValues, with or without a listing of the environment
  abbrev pub values_of : Paths → Option (List Text) → Result ConfigError (List (Text × Text))
  values_of paths (some entries) = session_values entries
  values_of paths none = ok (map (λ (k : Text × Text). (k.0, paths.env k.0)) session_override_keys)

  unfoldable pub apply_session_precedence : Paths → Config → Result LoadError Config
  apply_session_precedence paths base =
      load_failed (values_of paths paths.environ >>= apply_session_overrides base)

  abbrev pub or_base : Config → Option FilePath → Result LoadError Config
  or_base base none = ok base
  or_base base (some path) = merge_approved_project base path

  -- The project's part of Load; an unknown working directory leaves it out.
  unfoldable pub with_project : Option FilePath → Config → Result LoadError Config
  unfolding project_path merge_approved_project
  with_project none base = ok base
  with_project (some dir) base = or_base base (project_path s.files dir)

  unfoldable pub load : Paths → Result LoadError Config
  unfolding global_path load_global with_project apply_session_precedence
  load paths = do
    global ← global_path paths
    base ← load_global global
    cfg ← with_project paths.cwd base
    apply_session_precedence paths cfg
