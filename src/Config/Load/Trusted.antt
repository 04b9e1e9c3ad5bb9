-- ===== src/Config/Load/Trusted.antt =====
-- Which projects change a configuration that is loaded, and what is loaded.
use solomon.Prelude.{
  ℕ, ◌≡◌, refl, inl, inr, not, ◌||◌, Option, none, some, List, arith, Bool-cases, Result, ok, err,
  >>=-eq-ok, codes,
}
use solomon.Daemon.Tables.{find}
use solomon.Config.Defs.{ConfigError, Config, IsValid, default, default-IsValid}
use solomon.Config.Migration.{finish_decode-IsValid}
use solomon.Config.Settings.{apply_session_overrides}
use solomon.Config.Settings.Keeps.{apply_session_overrides-IsValid}
use solomon.Config.Project.{
  FilePath, Lookup, missing, failing, found, is_regular, trusted_project, project_path,
}
use solomon.Config.Project.Approved.{IsAncestor, IsApproved, project_path-none}
use solomon.Config.Load.{
  Contents, no_file, unreadable, contents, System, Paths, load_failed, decode, decoded_file, merged,
  merge_approved_project, global_contents, load_global, or_parse_failure, fields_of, version_of,
  without_retired, without_legacy, global_path, values_of, apply_session_precedence, or_base,
  with_project, load,
}

module _ (s : System) where
  -- Where no directory from the working directory up to the root has an approved project, a
  -- configuration, or the error, is loaded as it is without a working directory.
  pub load-without_project :
      (paths : Paths) (cwd : FilePath)
      → paths.cwd ≡ some cwd
      → ((dir : FilePath) → IsAncestor dir cwd → ¬ IsApproved s.files dir)
      → load s paths ≡ load s (record paths { cwd = none })
  unfolding load with_project
  load-without_project paths cwd is_cwd refused =
      let no_project = project_path-none s.files cwd refused in rw (is_cwd, no_project) refl

  load_failed-ok : (r : Result ConfigError Config) (c : Config) → load_failed r ≡ ok c → r ≡ ok c
  load_failed-ok (ok d) c h = cc
  load_failed-ok (err e) c h = absurd (cc)

  decode-IsValid : (bytes : List ℕ) (base c : Config) → decode s bytes base ≡ ok c → IsValid c
  unfolding decode
  decode-IsValid bytes base c h =
      let (all_fields, _, h1) =
        >>=-eq-ok (or_parse_failure (fields_of (s.parse_object bytes))) _ h in
      let fields = without_retired all_fields in
      let (version, _, h2) = >>=-eq-ok (version_of s (find fields (codes "schema_version"))) _ h1 in
      let (decoded, _, finished) =
        >>=-eq-ok (or_parse_failure (s.decode_fields (without_legacy version fields) base)) _ h2 in
      finish_decode-IsValid decoded version finished

  decoded_file-IsValid :
      (path : FilePath) (base c : Config) (o : Contents)
      → decoded_file s path base o ≡ ok c
      → IsValid c
  decoded_file-IsValid path base c no_file h = absurd (cc)
  decoded_file-IsValid path base c unreadable h = absurd (cc)
  decoded_file-IsValid path base c (contents bytes) h =
      decode-IsValid bytes base c (load_failed-ok _ c h)

  load_global-IsValid : (path : FilePath) (c : Config) → load_global s path ≡ ok c → IsValid c
  unfolding load_global
  load_global-IsValid path c h = of_contents (s.read path) h
    where
      of_contents : (o : Contents) → global_contents s path o ≡ ok c → IsValid c
      of_contents no_file e = let same : default ≡ c = cc in rw (← same) default-IsValid
      of_contents unreadable e = absurd (cc)
      of_contents (contents bytes) e = decode-IsValid bytes default c (load_failed-ok _ c e)

  merge_approved_project-IsValid :
      (base c : Config) (path : FilePath)
      → IsValid base
      → merge_approved_project s base path ≡ ok c
      → IsValid c
  unfolding merge_approved_project
  merge_approved_project-IsValid base c path valid h = of_lookup (s.files.lstat path) h
    where
      of_lookup : (o : Lookup) → merged s base path o ≡ ok c → IsValid c
      of_lookup missing e = let same : base ≡ c = cc in rw (← same) valid
      of_lookup failing e = absurd (cc)
      of_lookup (found info) e =
          elim (Bool-cases (not (is_regular info.kind) || not (trusted_project s.files path))) [
            | inl refused ↦ let same : base ≡ c = ground arith in rw (← same) valid
            | inr taken ↦ decoded_file-IsValid path base c (s.read path) (rw taken at e)
          ]

  with_project-IsValid :
      (cwd : Option FilePath) (base c : Config)
      → IsValid base
      → with_project s cwd base ≡ ok c
      → IsValid c
  unfolding with_project
  with_project-IsValid none base c valid h = let same : base ≡ c = cc in rw (← same) valid
  with_project-IsValid (some dir) base c valid h = of_path (project_path s.files dir) h
    where
      of_path : (o : Option FilePath) → or_base s base o ≡ ok c → IsValid c
      of_path none e = let same : base ≡ c = cc in rw (← same) valid
      of_path (some path) e = merge_approved_project-IsValid base c path valid e

  -- Whatever the global file, the project's file and the session's overrides say, a configuration
  -- that is loaded is valid.
  pub load-IsValid : (paths : Paths) (c : Config) → load s paths ≡ ok c → IsValid c
  unfolding load apply_session_precedence
  load-IsValid paths c h =
      let (global, _, h1) = >>=-eq-ok (global_path s paths) _ h in
      let (base, is_base, h2) = >>=-eq-ok (load_global s global) _ h1 in
      let (cfg, is_cfg, h3) = >>=-eq-ok (with_project s paths.cwd base) _ h2 in
      let (values, _, overridden) =
        >>=-eq-ok (values_of s paths paths.environ) (apply_session_overrides cfg)
          (load_failed-ok _ c h3) in
      apply_session_overrides-IsValid cfg values
        (with_project-IsValid paths.cwd base cfg (load_global-IsValid global base is_base) is_cfg)
        overridden
