-- ===== src/Examples/Around.antt =====
-- The relay, the versions, the executables of a directory, a record, and an update manifest.
use Prim.Native.Nat.{Ordering}
use solomon.Prelude.{
  ◌<◌, ◌≡◌, refl, true, false, ◌&&◌, some, List, [], ◌∷◌, ◌++◌, arith, ok, length, all, All, Text,
  codes, equal, elem, text_lt, has_suffix, contains_rune, contains_any, split_at, join_with, width,
  byte_len, sort,
}
use solomon.Redact.{no_patterns}
use solomon.Diagnose.Decision.{Decision, no_decision}
use solomon.Diagnose.Executables.{DirEntry, FileSystem}
use solomon.Diagnose.Protocol.{record_of, record_fields}
use solomon.Diagnose.Protocol.Fields.{record_of-split_at}
use solomon.Packs.Versions.{semantic_version, compare_version, compare_prerelease}
use solomon.Packs.Versions.Sound.{composes_option, compare_version-composes}
use solomon.Packs.Versions.Letters.{starts_with_letter, compare_prerelease_letters}
use solomon.Capture.Relay.{Bytes, Terminal, Relay, feed_loop}
use solomon.Capture.Relay.Ends.{feed_loop_total}
use solomon.Release.Channel.{
  ArtifactInput, Input, Artifact, Manifest, generate, complete_set, version_pattern, commit_pattern,
}
use solomon.Release.Channel.Complete.{target_texts, IsSigned, generate-complete_set}

-- A terminal whose bytes are its characters.
abbrev terminal : Terminal
terminal = record { runes = λ b. b; bytes = λ t. t; strip = λ b. b; patterns = no_patterns }

abbrev marker : Bytes
marker = codes "#!"

abbrev waiting : Relay
waiting = record { pending = codes "a#!b#!cd#"; output = []; active = false }

feed_loop_total_example :
    (s : Relay) × (feed_loop terminal marker 10 waiting ≡ some s)
    × (length s.pending < length marker)
feed_loop_total_example = feed_loop_total terminal marker (omega arith) 10 waiting (omega arith)

semantic_1 : semantic_version (codes "1.0.0-alpha") ≡ true
unfolding solomon.Packs.Versions.semantic_version solomon.Prelude.split_at
semantic_1 = refl

semantic_2 : semantic_version (codes "1.0.0") ≡ true
unfolding solomon.Packs.Versions.semantic_version solomon.Prelude.split_at
semantic_2 = refl

semantic_3 : semantic_version (codes "1.2.0") ≡ true
unfolding solomon.Packs.Versions.semantic_version solomon.Prelude.split_at
semantic_3 = refl

compare_version_composes_example :
    composes_option
      (compare_version (codes "1.0.0-alpha") (codes "1.0.0"))
      (compare_version (codes "1.0.0") (codes "1.2.0"))
      (compare_version (codes "1.0.0-alpha") (codes "1.2.0"))
    ≡ true
compare_version_composes_example =
    compare_version-composes (codes "1.0.0-alpha") (codes "1.0.0") (codes "1.2.0") semantic_1
      semantic_2 semantic_3

one_part : length (split_at b'.' (codes "alpha")) ≡ length (split_at b'.' (codes "beta"))
unfolding solomon.Prelude.split_at
one_part = refl

alpha_letter : all starts_with_letter (split_at b'.' (codes "alpha")) ≡ true
unfolding solomon.Prelude.split_at
alpha_letter = refl

beta_letter : all starts_with_letter (split_at b'.' (codes "beta")) ≡ true
unfolding solomon.Prelude.split_at
beta_letter = refl

compare_prerelease_letters_example : compare_prerelease (codes "alpha") (codes "beta") ≡ Ordering.eq
compare_prerelease_letters_example =
    compare_prerelease_letters (codes "alpha") (codes "beta") one_part alpha_letter beta_letter

abbrev listed : List DirEntry
listed =
    record {
      name = codes "git";
      is_dir = false;
      info = some record { is_dir = false; mode = 493; changed = 1; size = 2 };
    }
    ∷ record {
      name = codes "notes";
      is_dir = false;
      info = some record { is_dir = false; mode = 420; changed = 1; size = 2 };
    }
    ∷ []

abbrev file_system : FileSystem
file_system = record {
  windows = false;
  stat = λ path. some record { is_dir = true; mode = 493; changed = 7; size = 64 };
  read_dir = λ path. some listed;
  join_path = λ dir name. dir ++ b'/' ∷ name;
}

abbrev line : Text
line = codes "1\tnone\tsafe\t0.00\t=\t=\t=\n"

no_tab : contains_rune (codes "=") b'\t' ≡ false
unfolding solomon.Prelude.contains_any
no_tab = refl

recorded : record_of (λ t. codes "=") no_decision ≡ ok line
unfolding solomon.Diagnose.Decision.hundredths solomon.Diagnose.Decision.format_confidence
    solomon.Diagnose.Decision.collect_evidence solomon.Diagnose.Protocol.record_of
    solomon.Prelude.join_with solomon.Prelude.width solomon.Prelude.byte_len
recorded = refl

record_of-split_at_example :
    (body : Text) × (line ≡ body ++ codes "\n")
    × (split_at b'\t' body ≡ record_fields (λ t. codes "=") no_decision)
record_of-split_at_example =
    record_of-split_at (λ t. codes "=") no_decision line (λ t. no_tab) recorded

abbrev artifact : Text → ArtifactInput
artifact name = record {
  name = name;
  contents = codes "x";
  signature_name = name ++ codes ".sigstore.json";
  signature = codes "y";
}

abbrev input : Input
input = record {
  channel = codes "stable";
  version = codes "v1.0.0";
  commit = codes "0123456789012345678901234567890123456789";
  artifacts =
      artifact (codes "solomon_v1.0.0_linux_amd64.tar.gz")
      ∷ artifact (codes "solomon_v1.0.0_linux_arm64.tar.gz")
      ∷ artifact (codes "solomon_v1.0.0_darwin_amd64.tar.gz")
      ∷ artifact (codes "solomon_v1.0.0_darwin_arm64.tar.gz")
      ∷ artifact (codes "solomon_v1.0.0_windows_amd64.zip")
      ∷ [];
}

abbrev made : Text → Text → Text → Artifact
made os arch filename = record {
  os = os;
  arch = arch;
  filename = filename;
  sha256 = codes "x";
  signature = filename ++ codes ".sigstore.json";
}

abbrev manifest : Manifest
manifest = record {
  schema_version = 1;
  channel = codes "stable";
  version = codes "v1.0.0";
  commit = codes "0123456789012345678901234567890123456789";
  artifacts =
      made (codes "darwin") (codes "amd64") (codes "solomon_v1.0.0_darwin_amd64.tar.gz")
      ∷ made (codes "darwin") (codes "arm64") (codes "solomon_v1.0.0_darwin_arm64.tar.gz")
      ∷ made (codes "linux") (codes "amd64") (codes "solomon_v1.0.0_linux_amd64.tar.gz")
      ∷ made (codes "linux") (codes "arm64") (codes "solomon_v1.0.0_linux_arm64.tar.gz")
      ∷ made (codes "windows") (codes "amd64") (codes "solomon_v1.0.0_windows_amd64.zip")
      ∷ [];
}

generates : generate (λ contents. contents) input ≡ ok manifest
unfolding solomon.Prelude.sort solomon.Prelude.equal solomon.Prelude.elem solomon.Prelude.text_lt
    solomon.Prelude.has_suffix solomon.Prelude.split_at solomon.Release.Channel.generate
generates = refl

generate-complete_set_example :
    (length manifest.artifacts ≡ 5)
    × (all (λ target. elem target (target_texts manifest.artifacts)) complete_set ≡ true)
    × All IsSigned manifest.artifacts
    × ((equal manifest.channel (codes "stable")
          && version_pattern manifest.version
          && commit_pattern manifest.commit)
        ≡ true)
generate-complete_set_example =
    generate-complete_set (λ contents. contents) input manifest generates
