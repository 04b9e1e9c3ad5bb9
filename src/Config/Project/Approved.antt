-- ===== src/Config/Project/Approved.antt =====
-- Which projects the user has approved.
use solomon.Prelude.{
  ◌≡◌, refl, inl, inr, true, false, none, [], ◌∷◌, arith, ◌==◌, Bool-cases, Text, codes, ◌%◌, ◌/◌,
}
use solomon.Config.Project.{
  FilePath, Info, Lookup, missing, failing, found, Files, is_regular, is_directory,
  has_secure_permissions, secure_file, secure_directory, project_config, trusted_project,
  project_path,
}

-- A directory above another one, or the same.
pub data IsAncestor : FilePath → FilePath → Type 0 where
  here : {dir : FilePath} → IsAncestor dir dir
  above : {dir path : FilePath} {name : Text} → IsAncestor dir path → IsAncestor dir (name ∷ path)

-- What a path is of one's own that no other user can write to and, if it is a file, read.
pub record IsOwnFile (o : Lookup) : Type 0 where
  pub info : Info
  pub is_found : o ≡ found info
  pub is_file : is_regular info.kind ≡ true
  pub is_owned : info.owned ≡ true
  pub no_access : info.permissions % 64 ≡ 0

pub record IsOwnDirectory (o : Lookup) : Type 0 where
  pub info : Info
  pub is_found : o ≡ found info
  pub is_dir : is_directory info.kind ≡ true
  pub is_owned : info.owned ≡ true
  pub not_by_group : (info.permissions / 16 % 2 == 1) ≡ false
  pub not_by_others : (info.permissions / 2 % 2 == 1) ≡ false

secure_file-IsOwnFile : (o : Lookup) → secure_file o ≡ true → IsOwnFile o
unfolding has_secure_permissions
secure_file-IsOwnFile missing h = absurd (cc)
secure_file-IsOwnFile failing h = absurd (cc)
secure_file-IsOwnFile (found info) h = record {
  info = info;
  is_found = refl;
  is_file = ground arith;
  is_owned = ground arith;
  no_access = ground arith;
}

secure_directory-IsOwnDirectory : (o : Lookup) → secure_directory o ≡ true → IsOwnDirectory o
unfolding has_secure_permissions
secure_directory-IsOwnDirectory missing h = absurd (cc)
secure_directory-IsOwnDirectory failing h = absurd (cc)
secure_directory-IsOwnDirectory (found info) h = record {
  info = info;
  is_found = refl;
  is_dir = ground arith;
  is_owned = ground arith;
  not_by_group = ground arith;
  not_by_others = ground arith;
}

module _ (s : Files) where
  -- A directory whose project the user has approved: a configuration and a marker in a directory,
  -- each of which is the user's own.
  pub record IsApproved (dir : FilePath) : Type 0 where
    pub own_config : IsOwnFile (s.lstat (project_config dir))
    pub own_marker : IsOwnFile (s.lstat (codes "trusted" ∷ codes ".solomon" ∷ dir))
    pub own_directory : IsOwnDirectory (s.lstat (codes ".solomon" ∷ dir))

  trusted_project-IsApproved :
      (dir : FilePath) → trusted_project s (project_config dir) ≡ true → IsApproved dir
  unfolding trusted_project
  trusted_project-IsApproved dir h = record {
    own_config = secure_file-IsOwnFile _ (ground arith);
    own_marker = secure_file-IsOwnFile _ (ground arith);
    own_directory = secure_directory-IsOwnDirectory _ (ground arith);
  }

  not_trusted : (dir : FilePath) → ¬ IsApproved dir → trusted_project s (project_config dir) ≡ false
  not_trusted dir refused = elim (Bool-cases (trusted_project s (project_config dir))) [
    | inl trusted ↦ absurd (refused (trusted_project-IsApproved dir trusted))
    | inr other ↦ other
  ]

  pub project_path-none :
      (cwd : FilePath)
      → ((dir : FilePath) → IsAncestor dir cwd → ¬ IsApproved dir)
      → project_path s cwd ≡ none
  unfolding project_path
  project_path-none [] refused = let root = not_trusted [] (refused [] here) in ground arith
  project_path-none (name ∷ cwd) refused =
      let rest = project_path-none cwd (λ dir is_above. refused dir (above is_above)) in
      let first = not_trusted (name ∷ cwd) (refused (name ∷ cwd) here) in ground arith
