-- ===== src/Packs/Store/Restored.antt =====
-- What a failed installation and an installation followed by its removal leave.
use solomon.Prelude.{
  ℕ, ◌≡◌, refl, sym, inl, inr, true, false, Option, none, some, [], ◌∷◌, ◌++◌, arith, Bool-cases,
  Result, ok, err, Text, equal, equal_iff,
}
use solomon.Daemon.Tables.{Table, find, put, delete, find-delete, find-put}
use solomon.Packs.Rules.{Pack}
use solomon.Packs.Keyring.{Bytes, Keyring}
use solomon.Packs.Store.{
  Entry, regular, DiskCall, Disk, StoreError, installed_pack_name, signature_of, made, Surroundings,
  check_install, check_place, write_pack, or_write, install_pack, install_verified, is_missing,
}

longer : (t : Text) (c : ℕ) (cs : Text) → equal (t ++ c ∷ cs) t ≡ false
unfolding equal
longer [] c cs = refl
longer (d ∷ t) c cs = ground (arith, longer t c cs)

pub signature_apart : (target : Text) → equal (signature_of target) target ≡ false
signature_apart target = longer target _ _

missing_none : (o : Option Entry) → is_missing o ≡ true → o ≡ none
missing_none none h = refl
missing_none (some e) h = absurd (cc)

undone :
    (t : Table Entry) (key : Text) (v : Entry) (name : Text)
    → find t key ≡ none
    → find (delete (put t key v) key) name ≡ find t name
undone t key v name fresh = elim (Bool-cases (equal key name)) [
  | inl same ↦
      let e : key ≡ name = (equal_iff key name).0 same in
      rw (find-delete (put t key v) key name, same) (sym (rw (← e) fresh))
  | inr differs ↦
      rw (find-delete (put t key v) key name, differs, find-put t key v name, differs) refl
]

-- The same files under every name.
abbrev pub SameFiles : Disk → Disk → Type 0
SameFiles a b = (name : Text) → find a.files name ≡ find b.files name

module _ (s : Surroundings) where
  write_pack-err :
      (disk after : Disk) (target : Text) (payload signature : Bytes) (e : StoreError)
      → s.fails (DiskCall.remove (signature_of target)) ≡ false
      → find disk.files (signature_of target) ≡ none
      → write_pack s disk target payload signature ≡ (after, err e)
      → SameFiles after disk
  unfolding write_pack
  write_pack-err disk after target payload signature e removes fresh h name =
      elim (Bool-cases (s.fails (DiskCall.write (signature_of target)))) [
        | inl first ↦ let same : after.files ≡ disk.files = ground arith in rw same refl
        | inr signed ↦ elim (Bool-cases (s.fails (DiskCall.write target))) [
          | inl second ↦
              let same : after.files
                  ≡ delete (put disk.files (signature_of target) (regular signature))
                      (signature_of target) =
                ground arith in
              rw same (undone disk.files (signature_of target) (regular signature) name fresh)
          | inr written ↦ absurd (ground arith)
        ]
      ]

  pub check_place-missing :
      (disk : Disk) (target id : Text)
      → check_place s disk target id ≡ ok tt
      → (find disk.files target ≡ none) × (find disk.files (signature_of target) ≡ none)
  unfolding check_place
  check_place-missing disk target id h =
      (missing_none _ (ground arith), missing_none _ (ground arith))

  install_pack-SameFiles :
      (disk after : Disk) (payload signature : Bytes) (checked : Result StoreError Pack)
      (e : StoreError)
      → ((name : Text) → s.fails (DiskCall.remove name) ≡ false)
      → install_pack s disk payload signature checked ≡ (after, err e)
      → SameFiles after disk
  install_pack-SameFiles disk after payload signature (err f) e removes h name =
      let same : after.files ≡ disk.files = ground arith in rw same refl
  install_pack-SameFiles disk after payload signature (ok p) e removes h name =
      placed (check_place s (made disk) target p.id) refl h
    where
      target : Text
      target = installed_pack_name p

      placed :
          (c : Result StoreError (Unit {0}))
          → check_place s (made disk) target p.id ≡ c
          → or_write s (made disk) c (write_pack s (made disk) target payload signature)
            ≡ (after, err e)
          → find after.files name ≡ find disk.files name
      placed (err f) is_c h = let same : after.files ≡ disk.files = ground arith in rw same refl
      placed (ok done) is_c h =
          write_pack-err (made disk) after target payload signature e
            (removes (signature_of target)) (check_place-missing (made disk) target p.id is_c).1 h
            name

  -- An installation that is refused, or whose writes fail, leaves every file as it was, if a file
  -- that it wrote can be removed.
  pub install_verified-SameFiles :
      (disk after : Disk) (payload signature : Bytes) (keyring : Keyring) (e : StoreError)
      → ((name : Text) → s.fails (DiskCall.remove name) ≡ false)
      → install_verified s disk payload signature keyring ≡ (after, err e)
      → SameFiles after disk
  unfolding install_verified
  install_verified-SameFiles disk after payload signature keyring e removes h =
      install_pack-SameFiles disk after payload signature
        (check_install s payload signature keyring) e removes h
