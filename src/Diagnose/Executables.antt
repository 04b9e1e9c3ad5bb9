-- ===== src/Diagnose/Executables.antt =====
-- The executables of PATH and their cache in internal/diagnose/engine.go. The file system is a
-- parameter: what a directory lists, and what a path is. A mode's executable bits are the ones of
-- 0o111. filepath.SplitList cuts PATH at the platform's separator; quoted parts
-- of a PATH on Windows are not modelled.
pub mod Cached
use solomon.Prelude.{
  ℕ, zero, suc, ◌-◌, Bool, true, false, not, ◌&&◌, ◌||◌, Option, none, some, List, [], ◌∷◌, ◌++◌,
  ◌==◌, if◌then◌else◌, length, get_elem?, take, any, Text, codes, equal, elem, text_lt, has_prefix,
  has_suffix, to_lower, trim_space, split_at, sort, ◌%◌, ◌/◌,
}
use solomon.Diagnose.Decision.{itoa}
use solomon.Packs.State.{search_strings}
use solomon.Daemon.Tables.{Table, find, put}

-- os.FileInfo, as far as it is used; the time of a change in nanoseconds.
pub record FileInfo : Type 0 where
  pub is_dir : Bool
  pub mode : ℕ
  pub changed : ℕ
  pub size : ℕ

pub record DirEntry : Type 0 where
  pub name : Text
  pub is_dir : Bool
  pub info : Option FileInfo

pub record FileSystem : Type 0 where
  pub windows : Bool
  pub stat : Text → Option FileInfo
  pub read_dir : Text → Option (List DirEntry)
  pub join_path : Text → Text → Text

abbrev pub max_path_directories : ℕ
max_path_directories = 64

abbrev pub max_directory_entries : ℕ
max_directory_entries = 512

-- mode&0o111 != 0
abbrev pub executable_bits : ℕ → Bool
executable_bits mode = mode / 64 % 2 == 1 || mode / 8 % 2 == 1 || mode % 2 == 1

abbrev with_dot : Text → Text
with_dot extension = if has_prefix extension (codes ".") then extension else b'.' ∷ extension

-- The loop of executableExtensions.
extensions_of : List Text → List Text
extensions_of [] = []
extensions_of (part ∷ parts) =
    let rest = extensions_of parts in
    if equal (trim_space part) [] then rest else to_lower (with_dot (trim_space part)) ∷ rest

unfoldable pub executable_extensions : Text → List Text
unfolding extensions_of
executable_extensions path_ext =
    extensions_of
      (split_at b';' (if equal path_ext [] then codes ".COM;.EXE;.BAT;.CMD" else path_ext))

first_suffix : Text → List Text → Option Text
first_suffix name [] = none
first_suffix name (extension ∷ extensions) =
    let rest = first_suffix name extensions in
    if has_suffix name extension then some extension else rest

unfoldable pub executable_extension : Text → Text → Option Text
unfolding first_suffix executable_extensions
executable_extension name path_ext = first_suffix (to_lower name) (executable_extensions path_ext)

abbrev pub has_extension : Option Text → Bool
has_extension none = false
has_extension (some extension) = true

unfoldable pub is_executable_candidate : Bool → Text → Text → ℕ → Bool
is_executable_candidate windows path_ext name mode =
    if not windows then executable_bits mode else has_extension (executable_extension name path_ext)

abbrev pub without : Text → Option Text → Text
without name none = name
without name (some extension) = take (length name - length extension) name

unfoldable pub normalize_executable_name : Bool → Text → Text → Text
normalize_executable_name windows path_ext name =
    if not windows then name else to_lower (without name (executable_extension name path_ext))

-- filepath.SplitList
abbrev pub split_list : Bool → Text → List Text
split_list windows [] = []
split_list windows (c ∷ cs) = split_at (if windows then b';' else b':') (c ∷ cs)

-- A name that is put into a set.
abbrev pub add_name : Text → List Text → List Text
add_name name seen = if elem name seen then seen else name ∷ seen

abbrev pub limited_entries : Option (List DirEntry) → List DirEntry
limited_entries none = []
limited_entries (some entries) = take max_directory_entries entries

pub record CacheEntry : Type 0 where
  pub signature : Text
  pub names : List Text

abbrev pub Cache : Type 0
Cache = Table CacheEntry

module _ (fs : FileSystem) where
  -- limitedReadDir
  abbrev pub limited_read_dir : Text → List DirEntry
  limited_read_dir dir = limited_entries (fs.read_dir dir)

  abbrev pub add_entry : Text → DirEntry → Option FileInfo → List Text → List Text
  add_entry path_ext entry none seen = seen
  add_entry path_ext entry (some info) seen =
      if is_executable_candidate fs.windows path_ext entry.name info.mode
      then add_name (normalize_executable_name fs.windows path_ext entry.name) seen
      else seen

  unfoldable pub scan_entries : Text → List DirEntry → List Text → List Text
  scan_entries path_ext [] seen = seen
  scan_entries path_ext (entry ∷ entries) seen =
      scan_entries path_ext entries
        (if entry.is_dir then seen else add_entry path_ext entry entry.info seen)

  unfoldable pub scan_directories : Text → List Text → List Text → List Text
  unfolding scan_entries
  scan_directories path_ext [] seen = seen
  scan_directories path_ext (dir ∷ dirs) seen =
      scan_directories path_ext dirs (scan_entries path_ext (limited_read_dir dir) seen)

  -- What executableNamesFor computes where its cache has nothing.
  unfoldable pub scan_path : Text → Text → List Text
  unfolding scan_directories
  scan_path path_ext path =
      sort text_lt
        (scan_directories path_ext (take max_path_directories (split_list fs.windows path)) [])

  abbrev pub signature_part : Text → Option FileInfo → Text
  signature_part dir none = dir ++ (codes ":missing" ++ 0 ∷ [])
  signature_part dir (some info) =
      dir ++ (b':' ∷ (itoa info.changed ++ (b':' ∷ (itoa info.size ++ 0 ∷ []))))

  -- The loop of pathSignature, with the directories that may still be read.
  unfoldable pub signature_of : ℕ → List Text → Text
  signature_of left [] = []
  signature_of zero (dir ∷ dirs) = codes "truncated" ++ 0 ∷ []
  signature_of (suc left) (dir ∷ dirs) = signature_part dir (fs.stat dir) ++ signature_of left dirs

  unfoldable pub path_signature : Text → Text
  unfolding signature_of
  path_signature path = signature_of max_path_directories (split_list fs.windows path)

  abbrev pub platform : Text
  platform = if fs.windows then codes "windows" else codes "unix"

  abbrev pub cache_key : Text → Text → Text
  cache_key path_ext path = platform ++ (0 ∷ (path_ext ++ (0 ∷ path)))

  abbrev pub scanned : Cache → Text → Text → Text → Cache × List Text
  scanned cache path_ext path signature =
      let names = scan_path path_ext path in
      (put cache (cache_key path_ext path) (record { signature = signature; names = names }), names)

  abbrev pub or_scan : Cache → Text → Text → Text → Option CacheEntry → Cache × List Text
  or_scan cache path_ext path signature none = scanned cache path_ext path signature
  or_scan cache path_ext path signature (some entry) =
      if equal entry.signature signature
      then (cache, entry.names)
      else scanned cache path_ext path signature

  -- Cache.executableNamesFor
  unfoldable pub executable_names_for : Cache → Text → Text → Cache × List Text
  unfolding path_signature scan_path
  executable_names_for cache path_ext path =
      or_scan cache path_ext path (path_signature path) (find cache (cache_key path_ext path))

  abbrev pub runs : Option FileInfo → Bool
  runs none = false
  runs (some info) = not info.is_dir && executable_bits info.mode

  abbrev pub is_at : Text → Option Text → Bool
  is_at name none = false
  is_at name (some found) = equal found name

  -- Cache.commandExistsFor
  unfoldable pub command_exists_for : Cache → Text → Text → Text → Cache × Bool
  unfolding executable_names_for
  command_exists_for cache path_ext path name =
      let (after, names) = executable_names_for cache path_ext path in
      let normalized = normalize_executable_name fs.windows path_ext name in
      if not fs.windows
      then (
        cache,
        any (λ dir. runs (fs.stat (fs.join_path dir name)))
            (take max_path_directories (split_list fs.windows path)),
      )
      else (after, is_at normalized (get_elem? names (search_strings names normalized)))
