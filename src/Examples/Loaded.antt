-- ===== src/Examples/Loaded.antt =====
-- A configuration that is loaded beside a project that other users can read.
use solomon.Prelude.{
  ◌≡◌, refl, ap, true, none, some, [], ◌∷◌, arith, ok, codes, equal, elem, text_lt, has_prefix,
  fields, sort,
}
use solomon.Config.Defs.{IsValid, default}
use solomon.Config.Migration.{pos}
use solomon.Config.Project.{FilePath, Info, found, Files}
use solomon.Config.Project
use solomon.Config.Project.Approved.{IsApproved}
use solomon.Config.Load.{System, Paths, no_file, load}
use solomon.Config.Load
use solomon.Config.Load.Trusted.{load-without_project, load-IsValid}

-- Every file has the permissions 0o644.
abbrev readable : Info
readable = record { kind = Project.regular; permissions = 420; owned = true }

abbrev files : Files
files = record {
  platform = codes "linux";
  lstat = λ path. found readable;
  stat = λ path. found readable;
}

abbrev system : System
system = record {
  files = files;
  clean = λ path. path ∷ [];
  read = λ path. no_file;
  parse_object = λ bytes. Load.object [];
  parse_integer = λ value. some (pos 7);
  decode_fields = λ fields base. some base;
}

abbrev paths : Paths
paths = record {
  home = some (codes "home" ∷ []);
  cwd = some (codes "project" ∷ codes "home" ∷ []);
  env = λ name. [];
  environ = none;
}

found_same : {a b : Info} → found a ≡ found b → a ≡ b
found_same h = cc

not-IsApproved : (dir : FilePath) → ¬ IsApproved files dir
not-IsApproved dir approved =
    let own = approved.own_config in
    let same : 420 ≡ own.info.permissions =
      ap (λ (i : Info). i.permissions) (found_same own.is_found) in
    let no_access = own.no_access in absurd (omega arith)

load-without_project_example : load system paths ≡ load system (record paths { cwd = none })
load-without_project_example =
    load-without_project system paths (codes "project" ∷ codes "home" ∷ []) refl
      (λ dir is_above. not-IsApproved dir)

loads : load system paths ≡ ok default
unfolding solomon.Config.Project.capabilities_for solomon.Config.Project.supports
    solomon.Config.Project.has_secure_permissions solomon.Config.Load.load
    solomon.Config.Settings.lookup_text solomon.Config.Settings.override_setting
    solomon.Config.Settings.override_with solomon.Config.Settings.apply_session_overrides
    solomon.Prelude.sort solomon.Prelude.equal solomon.Prelude.elem solomon.Prelude.text_lt
    solomon.Prelude.has_prefix
loads = refl

load-IsValid_example : IsValid default
load-IsValid_example = load-IsValid system paths default loads
