-- ===== src/Packs/Activation/RolledBack.antt =====
-- What an activation that fails leaves.
use solomon.Prelude.{
  ◌≡◌, refl, sym, ◌∙◌, ◌⊎◌, inl, inr, Bool, Option, none, some, arith, Bool-cases, Result, ok, err,
  >>=-eq-ok, Text, equal, equal_iff, equal_refl,
}
use solomon.Daemon.Tables.{Table, find, put, delete, find-delete, find-put}
use solomon.Packs.Rules.{Pack}
use solomon.Packs.Keyring.{Bytes}
use solomon.Packs.Store.{
  Entry, regular, folder, link, Disk, DiskCall, StoreError, rollback_failed, installed_pack_name,
  Surroundings, called, Outcome,
}
use solomon.Packs.Store.Restored.{SameFiles}
use solomon.Packs.Activation.{
  backup_of, stage_activation_backup, rollback_activation, rolled_back, commit_pack, activate_at,
  check_staged, activate_checked, activate_staged_pack,
}

-- The backup is what the file holds.
abbrev IsBackup : Option Entry → Option Bytes → Type 0
IsBackup o none = o ≡ none
IsBackup o (some contents) = o ≡ some (regular contents)

put_back :
    (t : Table Entry) (target name : Text) (v : Entry) (contents : Bytes)
    → find t target ≡ some (regular contents)
    → find (put (put t target v) target (regular contents)) name ≡ find t name
put_back t target name v contents was = elim (Bool-cases (equal target name)) [
  | inl same ↦
      let e : target ≡ name = (equal_iff target name).0 same in
      rw (find-put (put t target v) target (regular contents) name, same) (sym (rw (← e) was))
  | inr differs ↦
      rw
        (
          find-put (put t target v) target (regular contents) name,
          differs,
          find-put t target v name,
          differs,
        )
        refl
]

taken_back :
    (t : Table Entry) (target name : Text) (v : Entry)
    → find t target ≡ none
    → find (delete (put t target v) target) name ≡ find t name
taken_back t target name v was = elim (Bool-cases (equal target name)) [
  | inl same ↦
      let e : target ≡ name = (equal_iff target name).0 same in
      rw (find-delete (put t target v) target name, same) (sym (rw (← e) was))
  | inr differs ↦
      rw (find-delete (put t target v) target name, differs, find-put t target v name, differs) refl
]

module _ (s : Surroundings) where
  stage_activation_backup-IsBackup :
      (disk : Disk) (target : Text) (backup : Option Bytes)
      → stage_activation_backup s disk target ≡ ok backup
      → IsBackup (find disk.files target) backup
  unfolding stage_activation_backup
  stage_activation_backup-IsBackup disk target backup h =
      let (_, _, rest) = >>=-eq-ok (called s (DiskCall.inspect target)) _ h in
      backup_of-IsBackup (find disk.files target) backup rest
    where
      backup_of-IsBackup :
          (o : Option Entry) (b : Option Bytes) → backup_of s target o ≡ ok b → IsBackup o b
      backup_of-IsBackup none none h = refl
      backup_of-IsBackup none (some c) h = absurd (cc)
      backup_of-IsBackup (some (regular contents)) none h = absurd (ground arith)
      backup_of-IsBackup (some (regular contents)) (some c) h = ground arith
      backup_of-IsBackup (some folder) b h = absurd (cc)
      backup_of-IsBackup (some link) b h = absurd (cc)

  same_disk : (after disk : Disk) → after.files ≡ disk.files → SameFiles after disk
  same_disk after disk e name = rw e refl

  rollback_activation-SameFiles :
      (disk after : Disk) (target : Text) (staged : Bytes) (backup : Option Bytes)
      → IsBackup (find disk.files target) backup
      → rollback_activation s
          (record disk { files = put disk.files target (regular staged) })
          target
          backup
        ≡ (after, ok tt)
      → SameFiles after disk
  unfolding rollback_activation
  rollback_activation-SameFiles disk after target staged (some contents) was h name =
      let files : after.files
          ≡ put (put disk.files target (regular staged)) target (regular contents) =
        ground arith in
      rw files (put_back disk.files target name (regular staged) contents was)
  rollback_activation-SameFiles disk after target staged none was h name =
      let active : find (put disk.files target (regular staged)) target ≡ some (regular staged) =
        find-put disk.files target (regular staged) target ∙ rw (equal_refl target) refl in
      let files : after.files ≡ delete (put disk.files target (regular staged)) target =
        ground arith in
      rw files (taken_back disk.files target name (regular staged) was)

  rolled_back-SameFiles :
      (disk after : Disk) (o : Outcome (Unit {0})) (e : StoreError)
      → ((d : Disk) → o ≡ (d, ok tt) → SameFiles d disk)
      → rolled_back s o ≡ (after, err e)
      → SameFiles after disk ⊎ (e ≡ rollback_failed)
  rolled_back-SameFiles disk after (d, ok done) e back h =
      inl (λ name. let files : after.files ≡ d.files = ground arith in rw files (back d refl name))
  rolled_back-SameFiles disk after (d, err f) e back h = inr (ground arith)

  module _ (verify : Disk → Text → Bytes → Bool) (commit_fails : Bool) (disk after : Disk)
      (staged : Bytes) (e : StoreError) where
    commit_pack-SameFiles :
        (target : Text) (backup : Option Bytes)
        → IsBackup (find disk.files target) backup
        → commit_pack s verify commit_fails disk target staged backup ≡ (after, err e)
        → SameFiles after disk ⊎ (e ≡ rollback_failed)
    unfolding commit_pack
    commit_pack-SameFiles target backup was h = elim (Bool-cases commit_fails) [
      | inl failed ↦ inl (same_disk after disk (ground arith))
      | inr committed ↦
          let active : Disk = record disk { files = put disk.files target (regular staged) } in
          elim (Bool-cases (verify active target staged)) [
            | inl verified ↦ absurd (ground arith)
            | inr refused ↦
                rolled_back-SameFiles disk after (rollback_activation s active target backup) e
                  (λ d back. rollback_activation-SameFiles disk d target staged backup was back)
                  (ground arith)
          ]
    ]

    activate_at-SameFiles :
        (target : Text) (backup : Result StoreError (Option Bytes))
        → ((b : Option Bytes) → backup ≡ ok b → IsBackup (find disk.files target) b)
        → activate_at s verify commit_fails disk target staged backup ≡ (after, err e)
        → SameFiles after disk ⊎ (e ≡ rollback_failed)
    activate_at-SameFiles target (err f) was h = inl (same_disk after disk (ground arith))
    activate_at-SameFiles target (ok b) was h = commit_pack-SameFiles target b (was b refl) h

    activate_checked-SameFiles :
        (checked : Result StoreError Pack)
        → activate_checked s verify commit_fails disk staged checked ≡ (after, err e)
        → SameFiles after disk ⊎ (e ≡ rollback_failed)
    activate_checked-SameFiles (err f) h = inl (same_disk after disk (ground arith))
    activate_checked-SameFiles (ok p) h =
        activate_at-SameFiles (installed_pack_name p)
          (stage_activation_backup s disk (installed_pack_name p))
          (λ b is_b. stage_activation_backup-IsBackup disk (installed_pack_name p) b is_b) h

    -- An activation that fails, at whatever step, leaves every file as it was, whatever the check
    -- of the activated file is; or it says that the files could not be put back.
    pub activate_staged_pack-SameFiles :
        activate_staged_pack s verify commit_fails disk staged ≡ (after, err e)
        → SameFiles after disk ⊎ (e ≡ rollback_failed)
    unfolding activate_staged_pack
    activate_staged_pack-SameFiles h = activate_checked-SameFiles (check_staged s staged) h
