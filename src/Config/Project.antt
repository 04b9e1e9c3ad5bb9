-- ===== src/Config/Project.antt =====
-- The trust of project files in internal/config/config.go, internal/config/ownership_unix.go and
-- internal/filesystem/capabilities.go. An absolute path is the list of its names, the innermost
-- first.
pub mod Approved
use solomon.Prelude.{
  ℕ, Bool, true, false, not, ◌&&◌, Option, none, some, List, [], ◌∷◌, ◌==◌, if◌then◌else◌, Text,
  codes, elem, ◌%◌, ◌/◌,
}

abbrev pub FilePath : Type 0
FilePath = List Text

pub data Kind : Type 0 where
  regular directory other_kind : Kind

-- os.FileInfo: the permissions of the mode, and whether the current user owns the file.
pub record Info : Type 0 where
  pub kind : Kind
  pub permissions : ℕ
  pub owned : Bool

pub data Lookup : Type 0 where
  missing failing : Lookup
  found : Info → Lookup

-- The file system under projectPath.
pub record Files : Type 0 where
  pub platform : Text
  pub lstat : FilePath → Lookup
  pub stat : FilePath → Lookup

pub data Capability : Type 0 where
  atomic_replace restrictive_permissions owner_verification : Capability
  other_capability : Text → Capability

pub record Capabilities : Type 0 where
  pub platform : Text
  pub atomic_replace : Bool
  pub restrictive_permissions : Bool
  pub owner_verification : Bool

abbrev platforms : List Text
platforms =
    codes "aix"
    ∷ codes "darwin"
    ∷ codes "dragonfly"
    ∷ codes "freebsd"
    ∷ codes "illumos"
    ∷ codes "ios"
    ∷ codes "linux"
    ∷ codes "netbsd"
    ∷ codes "openbsd"
    ∷ codes "solaris"
    ∷ codes "windows"
    ∷ []

-- For
unfoldable pub capabilities_for : Text → Capabilities
capabilities_for platform = record {
  platform = platform;
  atomic_replace = elem platform platforms;
  restrictive_permissions = elem platform platforms;
  owner_verification = elem platform platforms;
}

unfoldable pub supports : Capabilities → Capability → Bool
supports c atomic_replace = c.atomic_replace
supports c restrictive_permissions = c.restrictive_permissions
supports c owner_verification = c.owner_verification
supports c (other_capability name) = false

abbrev pub is_regular : Kind → Bool
is_regular regular = true
is_regular kind = false

abbrev pub is_directory : Kind → Bool
is_directory directory = true
is_directory kind = false

-- hasSecurePermissions: permissions&0o022 == 0 of a directory, permissions&0o077 == 0 of a file
unfoldable pub has_secure_permissions : Info → Bool → Bool
has_secure_permissions info is_dir =
    if is_dir
    then not (info.permissions / 16 % 2 == 1) && not (info.permissions / 2 % 2 == 1)
    else info.permissions % 64 == 0

-- A file, and a directory, that trustedProject accepts.
abbrev pub secure_file : Lookup → Bool
secure_file (found info) = is_regular info.kind && has_secure_permissions info false && info.owned
secure_file lookup = false

abbrev pub secure_directory : Lookup → Bool
secure_directory (found info) =
    is_directory info.kind && has_secure_permissions info true && info.owned
secure_directory lookup = false

-- filepath.Dir
abbrev pub parent : FilePath → FilePath
parent [] = []
parent (name ∷ path) = path

abbrev pub project_config : FilePath → FilePath
project_config dir = codes "config.json" ∷ codes ".solomon" ∷ dir

module _ (s : Files) where
  unfoldable pub trusted_project : FilePath → Bool
  trusted_project path =
      supports (capabilities_for s.platform) restrictive_permissions
      && supports (capabilities_for s.platform) owner_verification
      && secure_file (s.lstat path)
      && secure_file (s.lstat (codes "trusted" ∷ parent path))
      && secure_directory (s.lstat (parent path))

  abbrev pub is_regular_file : Lookup → Bool
  is_regular_file (found info) = is_regular info.kind
  is_regular_file lookup = false

  -- The loop of projectPath, from a directory up to the root.
  unfoldable pub project_path : FilePath → Option FilePath
  unfolding trusted_project
  project_path [] =
      if is_regular_file (s.stat (project_config [])) && trusted_project (project_config [])
      then some (project_config [])
      else none
  project_path (name ∷ dir) =
      let rest = project_path dir in
      let candidate = project_config (name ∷ dir) in
      if is_regular_file (s.stat candidate) && trusted_project candidate
      then some candidate
      else rest
