-- ===== src/Examples/Managed.antt =====
-- Packs that are installed, loaded, activated and trusted.
use solomon.Prelude.{
  ◌≡◌, refl, ◌⊎◌, Bool, true, false, none, some, [], ◌∷◌, if◌then◌else◌, ok, err, All, Text, codes,
  equal, elem, text_lt, has_prefix, has_suffix, contains_rune, contains_any, lower_rune, to_upper,
  is_space, is_control, cut_at, split_at, width, byte_len, insert, sort, trim_left_space,
  upper_rune, trim_left_space,
}
use solomon.Config.Defs.{default, rewrite}
use solomon.Daemon.Protocol.{Response}
use solomon.Daemon.Protocol
use solomon.Daemon.Service.{RuntimeMatch, Setting, Outcome}
use solomon.Daemon.PreSend.{curated_response}
use solomon.Packs.Rules.{Pack, PackError, check_compatibility}
use solomon.Packs.Rules.Accepted.{at_least, check_compatibility_mono}
use solomon.Packs.Versions.{semantic_version}
use solomon.Packs.Runtime.{RuntimePack, RuntimePoll, resolve, pack_before}
use solomon.Packs.Runtime.Loaded.{IsResolved, resolve-IsResolved}
use solomon.Packs.Keyring.{
  Bytes, Keyring, KeyError, key_revoked, validate_keyring, revoke, add, public_key, revoked_for,
  verify_publisher_signature,
}
use solomon.Packs.Keyring.Added.{add-public_key}
use solomon.Packs.Keyring.Revoked.{revoke-verify_publisher_signature}
use solomon.Packs.Store.{
  Disk, DiskCall, StoreError, disk_failed, verification_failed, rollback_failed, install_verified,
  uninstall,
}
use solomon.Packs.Store
use solomon.Packs.Store.Restored.{SameFiles, install_verified-SameFiles}
use solomon.Packs.Store.Removed.{uninstall-install_verified}
use solomon.Packs.Loading.{load_installed_verified}
use solomon.Packs.Loading.Trusted.{
  IsInstalled, IsTrusted, EachFound, load_installed_verified-IsTrusted,
}
use solomon.Packs.Activation.{activate_staged_pack}
use solomon.Packs.Activation.RolledBack.{activate_staged_pack-SameFiles}
use solomon.Examples.Daemon.{setting}
use solomon.Examples.Literal.{
  regexps, pack, compiled, crypto, key, signature, payload, keyring, surroundings, full, target,
  empty_disk, installed_disk,
}

abbrev never : RuntimePoll → Bool
never poll = false

abbrev rewriting : Setting
rewriting = record setting { config = record default { mode = rewrite; auto_apply_safe = true } }

abbrev match : RuntimeMatch
match = record {
  pack_id = codes "core-git";
  rule_id = codes "push-typo";
  source = codes "bundled";
  suggestion = codes "git push";
  cause = codes "unknown subcommand";
  risk = codes "safe";
  rationale = codes "read only";
}

abbrev applied : Response
applied = record (curated_response rewriting match) { action = Protocol.rewrite_action }

resolved : resolve regexps (pack ∷ []) ≡ ok (compiled ∷ [])
unfolding solomon.Packs.Rules.compile solomon.Packs.Runtime.resolve solomon.Packs.State.identifier
    solomon.Packs.Templates.validate_transformation_template
    solomon.Packs.Templates.validate_explanation_template
    solomon.Packs.Templates.validate_risk_metadata
    solomon.Packs.Templates.safe_transformation_template solomon.Packs.Versions.atoi
    solomon.Packs.Versions.split_version solomon.Packs.Versions.semantic_version
    solomon.Packs.Versions.compare_version solomon.Prelude.sort solomon.Prelude.equal
    solomon.Prelude.elem solomon.Prelude.contains_any solomon.Prelude.is_control
    solomon.Prelude.split_at solomon.Prelude.width solomon.Prelude.byte_len
resolved = refl

resolve-IsResolved_example : IsResolved regexps [] [] (sort pack_before (pack ∷ [])) (compiled ∷ [])
resolve-IsResolved_example = resolve-IsResolved regexps (pack ∷ []) (compiled ∷ []) resolved

compatible : check_compatibility regexps pack (codes "0.9.1") ≡ ok tt
unfolding solomon.Packs.Rules.compile solomon.Packs.State.identifier
    solomon.Packs.Templates.validate_transformation_template
    solomon.Packs.Templates.validate_explanation_template
    solomon.Packs.Templates.validate_risk_metadata
    solomon.Packs.Templates.safe_transformation_template solomon.Packs.Versions.atoi
    solomon.Packs.Versions.split_version solomon.Packs.Versions.semantic_version
    solomon.Packs.Versions.compare_version solomon.Prelude.equal solomon.Prelude.elem
    solomon.Prelude.contains_any solomon.Prelude.is_control solomon.Prelude.split_at
    solomon.Prelude.width solomon.Prelude.byte_len
compatible = refl

version_is_semantic : semantic_version (codes "1.2.0-rc.1") ≡ true
unfolding solomon.Packs.Versions.semantic_version solomon.Prelude.split_at
version_is_semantic = refl

newer : at_least (codes "1.2.0-rc.1") (codes "0.9.1") ≡ true
unfolding solomon.Packs.Versions.atoi solomon.Packs.Versions.split_version
    solomon.Packs.Versions.compare_version solomon.Prelude.equal solomon.Prelude.split_at
newer = refl

check_compatibility_mono_example : check_compatibility regexps pack (codes "1.2.0-rc.1") ≡ ok tt
check_compatibility_mono_example =
    check_compatibility_mono regexps pack (codes "0.9.1") (codes "1.2.0-rc.1") version_is_semantic
      newer compatible

abbrev no_keys : Keyring
no_keys = record { publishers = []; revoked = codes "mallory" ∷ [] }

abbrev one_key : Keyring
one_key = record keyring { revoked = codes "mallory" ∷ [] }

no_keys_valid : validate_keyring crypto no_keys ≡ ok tt
unfolding solomon.Packs.Keyring.validate_keyring solomon.Packs.State.identifier
    solomon.Prelude.text_lt
no_keys_valid = refl

added : add crypto no_keys (codes "solomon") key ≡ ok one_key
unfolding solomon.Packs.Keyring.add solomon.Packs.State.identifier solomon.Prelude.sort
    solomon.Prelude.elem
added = refl

add-public_key_example :
    (validate_keyring crypto one_key ≡ ok tt)
    × (public_key crypto one_key (codes "solomon") ≡ (
        if equal (codes "solomon") (codes "solomon")
        then (if revoked_for no_keys (codes "solomon") then none else some key)
        else public_key crypto no_keys (codes "solomon")))
add-public_key_example =
    add-public_key crypto no_keys one_key (codes "solomon") (codes "solomon") key refl no_keys_valid
      added

keyring_valid : validate_keyring crypto keyring ≡ ok tt
unfolding solomon.Packs.Keyring.validate_keyring solomon.Packs.State.identifier
    solomon.Prelude.text_lt
keyring_valid = refl

revokes : (revoke keyring (codes "solomon")).1 ≡ true
unfolding solomon.Packs.Keyring.revoke solomon.Packs.State.identifier solomon.Prelude.elem
revokes = refl

revoke-verify_publisher_signature_example :
    (validate_keyring crypto (revoke keyring (codes "solomon")).0 ≡ ok tt)
    × (verify_publisher_signature crypto payload signature
          (codes "solomon")
          (revoke keyring (codes "solomon")).0
        ≡ (if equal (codes "solomon") (codes "solomon")
            then err key_revoked
            else verify_publisher_signature crypto payload signature (codes "solomon") keyring))
revoke-verify_publisher_signature_example =
    revoke-verify_publisher_signature crypto keyring (codes "solomon") (codes "solomon") payload
      signature keyring_valid revokes

installs :
    ◌≡◌ {A = Store.Outcome Text}
      (install_verified surroundings empty_disk payload signature keyring)
      (installed_disk, ok target)
unfolding solomon.Daemon.Tables.find solomon.Daemon.Tables.put
    solomon.Packs.Keyring.verify_publisher_signature solomon.Packs.Rules.compile
    solomon.Packs.State.identifier solomon.Packs.State.search_strings
    solomon.Packs.Store.install_verified solomon.Packs.Templates.validate_transformation_template
    solomon.Packs.Templates.validate_explanation_template
    solomon.Packs.Templates.validate_risk_metadata
    solomon.Packs.Templates.safe_transformation_template solomon.Packs.Versions.atoi
    solomon.Packs.Versions.split_version solomon.Packs.Versions.semantic_version
    solomon.Packs.Versions.compare_version solomon.Prelude.equal solomon.Prelude.elem
    solomon.Prelude.text_lt solomon.Prelude.contains_any solomon.Prelude.is_control
    solomon.Prelude.split_at solomon.Prelude.width solomon.Prelude.byte_len
installs = refl

uninstall-install_verified_example :
    (restored : Disk) × (uninstall surroundings installed_disk pack.id pack.version
      ≡ (restored, ok target))
    × SameFiles restored empty_disk
uninstall-install_verified_example =
    uninstall-install_verified surroundings empty_disk installed_disk payload signature keyring pack
      target (λ call. refl) refl installs

install_fails :
    ◌≡◌ {A = Store.Outcome Text}
      (install_verified full empty_disk payload signature keyring)
      (empty_disk, err (disk_failed (DiskCall.write target)))
unfolding solomon.Daemon.Tables.find solomon.Daemon.Tables.put
    solomon.Packs.Keyring.verify_publisher_signature solomon.Packs.Rules.compile
    solomon.Packs.State.identifier solomon.Packs.State.search_strings
    solomon.Packs.Store.install_verified solomon.Packs.Templates.validate_transformation_template
    solomon.Packs.Templates.validate_explanation_template
    solomon.Packs.Templates.validate_risk_metadata
    solomon.Packs.Templates.safe_transformation_template solomon.Packs.Versions.atoi
    solomon.Packs.Versions.split_version solomon.Packs.Versions.semantic_version
    solomon.Packs.Versions.compare_version solomon.Prelude.equal solomon.Prelude.elem
    solomon.Prelude.text_lt solomon.Prelude.has_suffix solomon.Prelude.contains_any
    solomon.Prelude.is_control solomon.Prelude.split_at solomon.Prelude.width
    solomon.Prelude.byte_len
install_fails = refl

install_verified-SameFiles_example : SameFiles empty_disk empty_disk
install_verified-SameFiles_example =
    install_verified-SameFiles full empty_disk empty_disk payload signature keyring
      (disk_failed (DiskCall.write target)) (λ name. refl) install_fails

loads : load_installed_verified surroundings installed_disk keyring ≡ ok (pack ∷ [])
unfolding solomon.Daemon.Tables.find solomon.Packs.Keyring.verify_publisher_signature
    solomon.Packs.Loading.load_installed_verified solomon.Packs.Rules.compile
    solomon.Packs.Runtime.resolve solomon.Packs.State.identifier solomon.Packs.State.search_strings
    solomon.Packs.Store.install_verified solomon.Packs.Templates.validate_transformation_template
    solomon.Packs.Templates.validate_explanation_template
    solomon.Packs.Templates.validate_risk_metadata
    solomon.Packs.Templates.safe_transformation_template solomon.Packs.Versions.atoi
    solomon.Packs.Versions.split_version solomon.Packs.Versions.semantic_version
    solomon.Packs.Versions.compare_version solomon.Prelude.sort solomon.Prelude.equal
    solomon.Prelude.elem solomon.Prelude.text_lt solomon.Prelude.has_suffix
    solomon.Prelude.contains_any solomon.Prelude.is_control solomon.Prelude.split_at
    solomon.Prelude.width solomon.Prelude.byte_len
loads = refl

found : EachFound surroundings installed_disk installed_disk.files
unfolding solomon.Daemon.Tables.find solomon.Prelude.equal
found = (refl, (refl, tt))

load_installed_verified-IsTrusted_example :
    All (IsInstalled surroundings installed_disk) (pack ∷ [])
    × All (IsTrusted surroundings installed_disk keyring) (pack ∷ [])
load_installed_verified-IsTrusted_example =
    load_installed_verified-IsTrusted surroundings installed_disk keyring (pack ∷ []) found loads

abbrev refused : Disk → Text → Bytes → Bool
refused disk name contents = false

abbrev staged : Bytes
staged = codes "[]"

activation_fails :
    ◌≡◌ {A = Store.Outcome Text}
      (activate_staged_pack surroundings refused false installed_disk staged)
      (installed_disk, err verification_failed)
unfolding solomon.Daemon.Tables.find solomon.Daemon.Tables.put
    solomon.Packs.Activation.activate_staged_pack solomon.Packs.Rules.compile
    solomon.Packs.State.identifier solomon.Packs.Templates.validate_transformation_template
    solomon.Packs.Templates.validate_explanation_template
    solomon.Packs.Templates.validate_risk_metadata
    solomon.Packs.Templates.safe_transformation_template solomon.Packs.Versions.atoi
    solomon.Packs.Versions.split_version solomon.Packs.Versions.semantic_version
    solomon.Packs.Versions.compare_version solomon.Prelude.equal solomon.Prelude.elem
    solomon.Prelude.contains_any solomon.Prelude.is_control solomon.Prelude.split_at
    solomon.Prelude.width solomon.Prelude.byte_len
activation_fails = refl

activate_staged_pack-SameFiles_example :
    SameFiles installed_disk installed_disk ⊎ (verification_failed ≡ rollback_failed)
activate_staged_pack-SameFiles_example =
    activate_staged_pack-SameFiles surroundings refused false installed_disk installed_disk staged
      verification_failed activation_fails
