-- ===== src/Packs/Loading.antt =====
-- LoadInstalled and LoadInstalledVerified of internal/packs/runtime.go.
pub mod Trusted
use solomon.Prelude.{
  Bool, not, Option, some, List, [], ◌∷◌, if◌then◌else◌, Result, ok, err, ◌>>=◌, ◌>>◌, guard, Text,
  codes, equal, text_lt, has_suffix, sort,
}
use solomon.Daemon.Tables.{Table, find}
use solomon.Packs.Rules.{Pack, compile}
use solomon.Packs.Runtime.{resolve}
use solomon.Packs.Keyring.{Bytes, Keyring, verify_publisher_signature}
use solomon.Packs.Store.{
  Entry, regular, folder, link, Place, missing, real, unreal, DiskCall, inspect, inspect_directory,
  read_directory, read, Disk, StoreError, not_real_directory, is_link, not_canonical, bad_pack,
  bad_key, not_a_pack, installed_pack_name, signature_of, or_store_error, decoded, Surroundings,
  called, regular_at, not_found, not_regular,
}

-- The order in which LoadInstalled returns its packs.
abbrev pub loaded_before : Pack → Pack → Bool
loaded_before a b = if equal a.id b.id then text_lt a.version b.version else text_lt a.id b.id

-- The contents of a file, if there is one.
abbrev pub contents_of : Option Entry → Result StoreError Bytes
contents_of (some (regular contents)) = ok contents
contents_of entry = err not_found

module _ (s : Surroundings) where
  -- Load, and the checks of an entry's name and rules.
  unfoldable pub load_file : Text → Bytes → Result StoreError Pack
  load_file name contents = do
    called s (read name)
    pack ← decoded (s.decode_pack contents)
    guard (equal name (installed_pack_name pack)) (not_canonical name)
    or_store_error bad_pack (compile s.regexps pack) >>= λ _. ok pack

  -- The loop over the directory's entries, in the order of their names.
  unfoldable pub load_entries : Table Entry → Result StoreError (List Pack)
  unfolding load_file
  load_entries [] = ok []
  load_entries ((name, folder) ∷ entries) = load_entries entries
  load_entries ((name, link) ∷ entries) =
      let rest = load_entries entries in
      if not (has_suffix name (codes ".json")) then rest else err (is_link name)
  load_entries ((name, regular contents) ∷ entries) =
      let rest = load_entries entries in
      if not (has_suffix name (codes ".json"))
      then rest
      else load_file name contents >>= λ pack. rest >>= λ packs. ok (pack ∷ packs)

  abbrev pub load_place : Disk → Place → Result StoreError (List Pack)
  load_place disk missing = ok []
  load_place disk unreal = err not_real_directory
  load_place disk real = do
    called s read_directory
    packs ← load_entries disk.files
    or_store_error bad_pack (resolve s.regexps (sort loaded_before packs)) >>= λ _.
        ok (sort loaded_before packs)

  unfoldable pub load_installed : Disk → Result StoreError (List Pack)
  unfolding load_entries
  load_installed disk = called s inspect_directory >> load_place disk disk.place

  -- One round of the loop of LoadInstalledVerified.
  unfoldable pub check_signature : Disk → Keyring → Pack → Result StoreError (Unit {0})
  check_signature disk keyring pack = do
    called s (read (installed_pack_name pack))
    payload ← contents_of (find disk.files (installed_pack_name pack))
    called s (inspect (signature_of (installed_pack_name pack)))
    regular_at s (signature_of (installed_pack_name pack))
        (find disk.files (signature_of (installed_pack_name pack)))
    called s (read (signature_of (installed_pack_name pack)))
    signature ← contents_of (find disk.files (signature_of (installed_pack_name pack)))
    or_store_error bad_key
        (verify_publisher_signature s.crypto payload signature pack.publisher keyring)

  unfoldable pub check_signatures : Disk → Keyring → List Pack → Result StoreError (Unit {0})
  unfolding check_signature
  check_signatures disk keyring [] = ok tt
  check_signatures disk keyring (pack ∷ packs) =
      check_signature disk keyring pack >> check_signatures disk keyring packs

  unfoldable pub load_installed_verified : Disk → Keyring → Result StoreError (List Pack)
  unfolding load_installed check_signatures
  load_installed_verified disk keyring = do
    loaded ← load_installed disk
    check_signatures disk keyring loaded >>= λ _. ok loaded
