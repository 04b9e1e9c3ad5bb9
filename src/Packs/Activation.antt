-- ===== src/Packs/Activation.antt =====
-- The activation of a staged pack in internal/packs/staging.go. A backup is the contents of the
-- file that is replaced, and the check of the activated file is a parameter, as in the code.
pub mod RolledBack
use solomon.Prelude.{
  Bool, true, false, not, ◌&&◌, Option, none, some, if◌then◌else◌, Result, ok, err, ◌>>=◌, ◌>>◌,
  Text, equal, code,
}
use solomon.Daemon.Tables.{find, put, delete}
use solomon.Packs.Rules.{Pack, compile}
use solomon.Packs.Keyring.{Bytes}
use solomon.Packs.Store.{
  Entry, regular, folder, link, Disk, DiskCall, inspect, read, read_staged, remove, write,
  backup_write, StoreError, disk_failed, not_regular, verification_failed, rollback_failed,
  bad_pack, Outcome, installed_pack_name, or_store_error, decoded, Surroundings, called, is_regular,
}

module _ (s : Surroundings) where
  abbrev pub backup_of : Text → Option Entry → Result StoreError (Option Bytes)
  backup_of target none = ok none
  backup_of target (some (regular contents)) = do
    called s (read target)
    called s (backup_write target)
    ok (some contents)
  backup_of target (some entry) = err (not_regular target)

  unfoldable pub stage_activation_backup : Disk → Text → Result StoreError (Option Bytes)
  stage_activation_backup disk target =
      called s (inspect target) >> backup_of target (find disk.files target)

  abbrev pub remove_regular : Disk → Text → Option Entry → Outcome (Unit {0})
  remove_regular disk target none = (disk, ok tt)
  remove_regular disk target (some entry) =
      if not (is_regular entry)
      then (disk, err (not_regular target))
      else if s.fails (remove target)
      then (disk, err (disk_failed (remove target)))
      else (record disk { files = delete disk.files target }, ok tt)

  unfoldable pub rollback_activation : Disk → Text → Option Bytes → Outcome (Unit {0})
  rollback_activation disk target (some contents) =
      if s.fails (write target)
      then (disk, err (disk_failed (write target)))
      else (record disk { files = put disk.files target (regular contents) }, ok tt)
  rollback_activation disk target none =
      if s.fails (inspect target)
      then (disk, err (disk_failed (inspect target)))
      else remove_regular disk target (find disk.files target)

  abbrev pub rolled_back : Outcome (Unit {0}) → Outcome Text
  rolled_back (disk, ok done) = (disk, err verification_failed)
  rolled_back (disk, err e) = (disk, err rollback_failed)

  -- The commit of the staged file, its check, and what follows a failed check. A failed commit
  -- changes nothing.
  unfoldable pub commit_pack :
      (Disk → Text → Bytes → Bool) → Bool → Disk → Text → Bytes → Option Bytes → Outcome Text
  unfolding rollback_activation
  commit_pack verify commit_fails disk target staged backup =
      let active = record disk { files = put disk.files target (regular staged) } in
      if commit_fails
      then (disk, err (disk_failed (write target)))
      else if verify active target staged
      then (active, ok target)
      else rolled_back (rollback_activation active target backup)

  abbrev pub activate_at :
      (Disk → Text → Bytes → Bool)
      → Bool
      → Disk
      → Text
      → Bytes
      → Result StoreError (Option Bytes)
      → Outcome Text
  activate_at verify commit_fails disk target staged (err e) = (disk, err e)
  activate_at verify commit_fails disk target staged (ok backup) =
      commit_pack verify commit_fails disk target staged backup

  unfoldable pub check_staged : Bytes → Result StoreError Pack
  check_staged staged = do
    called s read_staged
    pack ← decoded (s.decode_pack staged)
    or_store_error bad_pack (compile s.regexps pack) >>= λ _. ok pack

  abbrev pub activate_checked :
      (Disk → Text → Bytes → Bool) → Bool → Disk → Bytes → Result StoreError Pack → Outcome Text
  activate_checked verify commit_fails disk staged (err e) = (disk, err e)
  activate_checked verify commit_fails disk staged (ok pack) =
      activate_at verify commit_fails disk (installed_pack_name pack) staged
        (stage_activation_backup disk (installed_pack_name pack))

  -- activateStagedPack
  unfoldable pub activate_staged_pack :
      (Disk → Text → Bytes → Bool) → Bool → Disk → Bytes → Outcome Text
  unfolding check_staged stage_activation_backup commit_pack installed_pack_name
  activate_staged_pack verify commit_fails disk staged =
      activate_checked verify commit_fails disk staged (check_staged staged)

  abbrev pub same_bytes : Option Entry → Bytes → Bool
  same_bytes (some (regular contents)) expected = equal contents expected
  same_bytes entry expected = false

  abbrev pub is_ok {ℓ} : {E : Type 0} {A : Type ℓ} → Result E A → Bool
  is_ok (ok a) = true
  is_ok (err e) = false

  -- verifyActivatedPack: does it return no error?
  unfoldable pub verify_activated_pack : Disk → Text → Bytes → Bool
  verify_activated_pack disk target expected =
      not (s.fails (read target))
      && same_bytes (find disk.files target) expected
      && is_ok (
          decoded (s.decode_pack expected) >>= λ pack.
          or_store_error bad_pack (compile s.regexps pack))
