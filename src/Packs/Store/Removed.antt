-- ===== src/Packs/Store/Removed.antt =====
-- A pack that is installed and uninstalled again.
use solomon.Prelude.{
  ◌≡◌, refl, sym, ap, ◌∙◌, inl, inr, true, false, ◌&&◌, Option, none, some, ◌++◌, arith, Bool-cases,
  Result, ok, err, ◌>>◌, >>=-eq-ok, Text, codes, equal, equal_iff, equal_refl, equal_comm,
}
use solomon.Daemon.Tables.{Table, find, put, delete, find-delete, find-put}
use solomon.Packs.State.{identifier}
use solomon.Packs.Versions.{semantic_version}
use solomon.Packs.Rules.{Pack, PackError, compile}
use solomon.Packs.Rules.Accepted.{compile_identity}
use solomon.Packs.Keyring.{Bytes, Keyring, verify_publisher_signature}
use solomon.Packs.Store.{
  Entry, regular, DiskCall, Disk, StoreError, installed_pack_name, signature_of, or_store_error,
  decoded, made, Surroundings, called, check_install, check_place, write_pack, or_write,
  install_pack, install_verified, check_uninstall, remove_pack, uninstall, bad_pack, bad_key,
}
use solomon.Packs.Store.Restored.{signature_apart, check_place-missing, SameFiles}

decoded_same : (o : Option Pack) (q p : Pack) → decoded o ≡ ok q → o ≡ some p → q ≡ p
decoded_same none q p h e = absurd (cc)
decoded_same (some r) q p h e = cc

bad_pack_ok {ℓ} :
    {A : Type ℓ} (r : Result PackError A) (c : A) → or_store_error bad_pack r ≡ ok c → r ≡ ok c
bad_pack_ok (err e) c h = absurd (cc)
bad_pack_ok (ok b) c h = cc

put_twice :
    (files : Table Entry) (target name : Text) (v w : Entry)
    → find files target ≡ none
    → find files (signature_of target) ≡ none
    → find
        (delete
          (delete (put (put files (signature_of target) v) target w) (signature_of target))
          target)
        name
      ≡ find files name
put_twice files target name v w fresh unsigned =
    let signed : Table Entry = put files (signature_of target) v in
    let both : Table Entry = put signed target w in
    find-delete (delete both (signature_of target)) target name
    ∙ elim (Bool-cases (equal target name)) [
      | inl same ↦
          let e : target ≡ name = (equal_iff target name).0 same in rw same (sym (rw (← e) fresh))
      | inr differs ↦ rw differs (
          find-delete both (signature_of target) name
          ∙ elim (Bool-cases (equal (signature_of target) name)) [
            | inl at ↦
                let e : signature_of target ≡ name = (equal_iff (signature_of target) name).0 at in
                rw at (sym (rw (← e) unsigned))
            | inr apart ↦
                rw
                  (
                    apart,
                    find-put signed target w name,
                    differs,
                    find-put files (signature_of target) v name,
                    apart,
                  )
                  refl
          ])
    ]

module _ (s : Surroundings) where
  check_install-ok :
      (payload signature : Bytes) (keyring : Keyring) (p q : Pack)
      → s.decode_pack payload ≡ some p
      → check_install s payload signature keyring ≡ ok q
      → (q ≡ p) × ((identifier p.id && semantic_version p.version) ≡ true)
  unfolding check_install
  check_install-ok payload signature keyring p q decodes h =
      let (p', is_pack, h1) = >>=-eq-ok (decoded (s.decode_pack payload)) _ h in
      let same : p' ≡ p = decoded_same (s.decode_pack payload) p' p is_pack decodes in
      let (c, compiled, h2) = >>=-eq-ok (or_store_error bad_pack (compile s.regexps p')) _ h1 in
      let (_, _, done) =
        >>=-eq-ok
          (or_store_error bad_key
              (verify_publisher_signature s.crypto payload signature p'.publisher keyring)
            >> called s DiskCall.make_directory)
          _ h2 in
      let identity = compile_identity s.regexps p' c (bad_pack_ok _ c compiled) in
      (cc, rw same at identity)

  -- The files behind the two writes, and the two removals.
  written_files :
      (disk after : Disk) (target t : Text) (payload signature : Bytes)
      → write_pack s disk target payload signature ≡ (after, ok t)
      → (t ≡ target)
        × (after.files
            ≡ put
                (put disk.files (signature_of target) (regular signature))
                target
                (regular payload))
  unfolding write_pack
  written_files disk after target t payload signature h = (ground arith, ground arith)

  -- What an installation leaves of a pack.
  record Installed (disk after : Disk) (payload signature : Bytes) (p : Pack) (target : Text)
      : Type 0 where
    named : target ≡ installed_pack_name p
    identity : (identifier p.id && semantic_version p.version) ≡ true
    fresh : find disk.files target ≡ none
    unsigned : find disk.files (signature_of target) ≡ none
    files :
        after.files
        ≡ put (put disk.files (signature_of target) (regular signature)) target (regular payload)

  install_pack-Installed :
      (disk after : Disk) (payload signature : Bytes) (p : Pack) (target : Text)
      (checked : Result StoreError Pack)
      → ((q : Pack)
          → checked ≡ ok q
          → (q ≡ p) × ((identifier p.id && semantic_version p.version) ≡ true))
      → install_pack s disk payload signature checked ≡ (after, ok target)
      → Installed disk after payload signature p target
  install_pack-Installed disk after payload signature p target (err e) check h =
      absurd (ground arith)
  install_pack-Installed disk after payload signature p target (ok q) check h =
      placed (check_place s (made disk) (installed_pack_name q) q.id) refl h
    where
      placed :
          (c : Result StoreError (Unit {0}))
          → check_place s (made disk) (installed_pack_name q) q.id ≡ c
          → or_write s
              (made disk)
              c
              (write_pack s (made disk) (installed_pack_name q) payload signature)
            ≡ (after, ok target)
          → Installed disk after payload signature p target
      placed (err e) is_c h = absurd (ground arith)
      placed (ok done) is_c h =
          let (same, identity) = check q refl in
          let (named, files) =
            written_files (made disk) after (installed_pack_name q) target payload signature h in
          let (fresh, unsigned) =
            check_place-missing s (made disk) (installed_pack_name q) q.id is_c in
          record {
            named = named ∙ ap installed_pack_name same;
            identity = identity;
            fresh = rw named fresh;
            unsigned = rw named unsigned;
            files = rw named files;
          }

  check_uninstall-ok :
      (disk : Disk) (id version target : Text) (payload signature : Bytes)
      → ((c : DiskCall) → s.fails c ≡ false)
      → (identifier id && semantic_version version) ≡ true
      → find disk.files target ≡ some (regular payload)
      → find disk.files (signature_of target) ≡ some (regular signature)
      → check_uninstall s disk id version target ≡ ok tt
  unfolding check_uninstall
  check_uninstall-ok disk id version target payload signature works identity here signed =
      rw
        (
          identity,
          works (DiskCall.inspect target),
          here,
          works (DiskCall.inspect (signature_of target)),
          signed,
        )
        refl

  remove_pack-ok :
      (disk : Disk) (target : Text)
      → ((c : DiskCall) → s.fails c ≡ false)
      → remove_pack s disk target ≡ (
        record disk { files = delete (delete disk.files (signature_of target)) target },
        ok target,
      )
  unfolding remove_pack
  remove_pack-ok disk target works =
      rw (works (DiskCall.remove (signature_of target)), works (DiskCall.remove target)) refl

  uninstalled :
      (p : Pack) (after : Disk) (target : Text) {gone : Disk}
      → target ≡ installed_pack_name p
      → check_uninstall s after p.id p.version target ≡ ok tt
      → remove_pack s after target ≡ (gone, ok target)
      → uninstall s after p.id p.version ≡ (gone, ok target)
  unfolding uninstall installed_pack_name
  uninstalled p after target named checks removed =
      let spelt : target ≡ p.id ++ (codes "-" ++ (p.version ++ codes ".json")) = named in
      rw (← spelt, checks) removed

  -- A pack that is installed can be uninstalled, where no call of the file system fails, and then
  -- every file is as it was before.
  pub uninstall-install_verified :
      (disk after : Disk) (payload signature : Bytes) (keyring : Keyring) (p : Pack) (target : Text)
      → ((c : DiskCall) → s.fails c ≡ false)
      → s.decode_pack payload ≡ some p
      → install_verified s disk payload signature keyring ≡ (after, ok target)
      → (restored : Disk) × (uninstall s after p.id p.version ≡ (restored, ok target))
        × SameFiles restored disk
  unfolding install_verified
  uninstall-install_verified disk after payload signature keyring p target works decodes h =
      let i =
        install_pack-Installed disk after payload signature p target
          (check_install s payload signature keyring)
          (λ q e. check_install-ok payload signature keyring p q decodes e) h in
      let here : find after.files target ≡ some (regular payload) = rw i.files (
        find-put (put disk.files (signature_of target) (regular signature)) target (regular payload)
          target
        ∙ rw (equal_refl target) refl) in
      let apart : equal target (signature_of target) ≡ false =
        equal_comm target (signature_of target) ∙ signature_apart target in
      let signed : find after.files (signature_of target) ≡ some (regular signature) =
        rw
          (
            i.files,
            find-put (put disk.files (signature_of target) (regular signature)) target
                (regular payload) (signature_of target),
            apart,
            find-put disk.files (signature_of target) (regular signature) (signature_of target),
            equal_refl (signature_of target),
          )
          refl in
      let checks =
        check_uninstall-ok after p.id p.version target payload signature works i.identity here
          signed in
      let gone : Disk = record after {
        files = delete (delete after.files (signature_of target)) target;
      } in
      (
        gone,
        uninstalled p after target i.named checks (remove_pack-ok after target works),
        λ name. rw i.files (
            put_twice disk.files target name (regular signature) (regular payload) i.fresh
              i.unsigned),
      )
