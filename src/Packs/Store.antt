-- ===== src/Packs/Store.antt =====
-- The managed directory of packs: InstallVerified and Uninstall of internal/packs/packs.go. A
-- temporary file is renamed or removed by the call that creates it, so that a write puts all of a
-- file, or fails; `fails` tells which calls of the file system fail.
pub mod Restored
pub mod Removed
use solomon.Prelude.{
  ◌-◌, Bool, true, false, not, ◌&&◌, Option, none, some, ◌++◌, if◌then◌else◌, Result, ok, err,
  ◌>>=◌, ◌>>◌, guard, all, Text, codes,
}
use solomon.Daemon.Tables.{Table, find, put, delete}
use solomon.Packs.State.{identifier}
use solomon.Packs.Versions.{semantic_version}
use solomon.Packs.Rules.{Pack, Regexps, PackError, compile, CompiledPack}
use solomon.Packs.Runtime.{resolve}
use solomon.Packs.Keyring.{Bytes, Crypto, Keyring, KeyError, verify_publisher_signature}

pub data Entry : Type 0 where
  regular : Bytes → Entry
  folder link : Entry

-- What stands at the path of the directory: nothing, a real directory, or a link or a file.
pub data Place : Type 0 where
  missing real unreal : Place

pub data DiskCall : Type 0 where
  make_directory inspect_directory read_directory read_staged : DiskCall
  inspect read write remove backup_write : Text → DiskCall

pub record Disk : Type 0 where
  pub place : Place
  pub files : Table Entry

pub data StoreError : Type 0 where
  not_a_pack : StoreError
  bad_pack : PackError → StoreError
  bad_key : KeyError → StoreError
  not_real_directory invalid_request not_found verification_failed rollback_failed : StoreError
  already_installed signature_installed not_regular not_canonical is_link : Text → StoreError
  disk_failed : DiskCall → StoreError

-- A call on the directory: what it leaves, and its result.
abbrev pub Outcome : Type 0 → Type 0
Outcome A = Disk × Result StoreError A

unfoldable pub installed_pack_name : Pack → Text
installed_pack_name pack = pack.id ++ (codes "-" ++ (pack.version ++ codes ".json"))

abbrev pub signature_of : Text → Text
signature_of target = target ++ codes ".sig"

abbrev pub is_regular : Entry → Bool
is_regular (regular contents) = true
is_regular entry = false

abbrev pub is_missing : Option Entry → Bool
is_missing none = true
is_missing (some entry) = false

abbrev pub is_real : Place → Bool
is_real real = true
is_real place = false

abbrev pub or_store_error {ℓ} :
    {E : Type 0} {A : Type ℓ} → (E → StoreError) → Result E A → Result StoreError A
or_store_error wrap (ok a) = ok a
or_store_error wrap (err e) = err (wrap e)

abbrev pub decoded : Option Pack → Result StoreError Pack
decoded none = err not_a_pack
decoded (some pack) = ok pack

-- os.MkdirAll
abbrev pub made_place : Place → Place
made_place missing = real
made_place place = place

abbrev pub made : Disk → Disk
made disk = record disk { place = made_place disk.place }

-- The surroundings of the store; decode_pack is decodePack.
pub record Surroundings : Type 1 where
  pub regexps : Regexps
  pub crypto : Crypto
  pub decode_pack : Bytes → Option Pack
  pub fails : DiskCall → Bool

module _ (s : Surroundings) where
  abbrev pub called : DiskCall → Result StoreError (Unit {0})
  called call = guard (not (s.fails call)) (disk_failed call)

  -- A target that must not be there: os.Lstat, and what InstallVerified does with its answer.
  unfoldable pub require_missing : Disk → Text → StoreError → Result StoreError (Unit {0})
  require_missing disk target e = do
    called (inspect target)
    guard (is_missing (find disk.files target)) e

  -- The checks of InstallVerified in front of the directory is made, and behind it.
  unfoldable pub check_install : Bytes → Bytes → Keyring → Result StoreError Pack
  check_install payload signature keyring = do
    pack ← decoded (s.decode_pack payload)
    or_store_error bad_pack (compile s.regexps pack) >>= λ _.
        or_store_error bad_key
          (verify_publisher_signature s.crypto payload signature pack.publisher keyring)
        >> called make_directory
        >> ok pack

  unfoldable pub check_place : Disk → Text → Text → Result StoreError (Unit {0})
  unfolding require_missing
  check_place disk target id = do
    called inspect_directory
    guard (is_real disk.place) not_real_directory
    require_missing disk target (already_installed id)
    require_missing disk (signature_of target) (signature_installed id)

  -- The two writes at the end of InstallVerified: if the second one fails, the signature is removed,
  -- and an error of that is left out.
  unfoldable pub write_pack : Disk → Text → Bytes → Bytes → Outcome Text
  write_pack disk target payload signature =
      let signed = record disk {
        files = put disk.files (signature_of target) (regular signature);
      } in
      if s.fails (write (signature_of target))
      then (disk, err (disk_failed (write (signature_of target))))
      else if s.fails (write target)
      then (
        (if s.fails (remove (signature_of target))
            then signed
            else record signed { files = delete signed.files (signature_of target) }),
        err (disk_failed (write target)),
      )
      else (record signed { files = put signed.files target (regular payload) }, ok target)

  abbrev pub or_write : Disk → Result StoreError (Unit {0}) → Outcome Text → Outcome Text
  or_write disk (err e) written = (disk, err e)
  or_write disk (ok done) written = written

  abbrev pub install_pack : Disk → Bytes → Bytes → Result StoreError Pack → Outcome Text
  install_pack disk payload signature (err e) = (disk, err e)
  install_pack disk payload signature (ok pack) =
      let target = installed_pack_name pack in
      or_write (made disk) (check_place (made disk) target pack.id)
        (write_pack (made disk) target payload signature)

  unfoldable pub install_verified : Disk → Bytes → Bytes → Keyring → Outcome Text
  unfolding check_install check_place write_pack installed_pack_name
  install_verified disk payload signature keyring =
      install_pack disk payload signature (check_install payload signature keyring)

  -- os.Lstat of a file that must be a regular one
  abbrev pub regular_at : Text → Option Entry → Result StoreError (Unit {0})
  regular_at target none = err not_found
  regular_at target (some entry) = guard (is_regular entry) (not_regular target)

  unfoldable pub check_uninstall : Disk → Text → Text → Text → Result StoreError (Unit {0})
  check_uninstall disk id version target = do
    guard (identifier id && semantic_version version) invalid_request
    called (inspect target)
    regular_at target (find disk.files target)
    called (inspect (signature_of target))
    regular_at (signature_of target) (find disk.files (signature_of target))

  -- The two removals at the end of Uninstall.
  unfoldable pub remove_pack : Disk → Text → Outcome Text
  remove_pack disk target =
      let unsigned = record disk { files = delete disk.files (signature_of target) } in
      if s.fails (remove (signature_of target))
      then (disk, err (disk_failed (remove (signature_of target))))
      else if s.fails (remove target)
      then (unsigned, err (disk_failed (remove target)))
      else (record unsigned { files = delete unsigned.files target }, ok target)

  unfoldable pub uninstall : Disk → Text → Text → Outcome Text
  unfolding check_uninstall remove_pack
  uninstall disk id version =
      let target = id ++ (codes "-" ++ (version ++ codes ".json")) in
      or_write disk (check_uninstall disk id version target) (remove_pack disk target)
