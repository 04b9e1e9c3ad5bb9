-- ===== src/Release/Channel.antt =====
-- The update manifest of internal/updatechannel/manifest.go. The hash of an artifact, in
-- hexadecimal, is a parameter.
pub mod Complete
use solomon.Prelude.{
  ℕ, ◌-◌, Bool, false, not, ◌&&◌, ◌||◌, List, [], ◌∷◌, ◌++◌, leb, ◌==◌, if◌then◌else◌, Result, ok,
  err, ◌>>=◌, ◌>>◌, guard, length, take, all, Text, codes, equal, elem, text_lt, has_suffix,
  split_at, sort,
}

abbrev pub Bytes : Type 0
Bytes = List ℕ

pub record ArtifactInput : Type 0 where
  pub name : Text
  pub contents : Bytes
  pub signature_name : Text
  pub signature : Bytes

pub record Input : Type 0 where
  pub channel : Text
  pub version : Text
  pub commit : Text
  pub artifacts : List ArtifactInput

pub record Artifact : Type 0 where
  pub os : Text
  pub arch : Text
  pub filename : Text
  pub sha256 : Text
  pub signature : Text

pub record Manifest : Type 0 where
  pub schema_version : ℕ
  pub channel : Text
  pub version : Text
  pub commit : Text
  pub artifacts : List Artifact

pub data ManifestError : Type 0 where
  invalid_input invalid_signature invalid_extension invalid_name unsupported_target : ManifestError
  duplicate_target : Text → ManifestError
  incomplete_targets : ManifestError

abbrev is_version_character : ℕ → Bool
is_version_character c =
    leb b'0' c && leb c b'9'
    || leb b'a' c && leb c b'z'
    || leb b'A' c && leb c b'Z'
    || c == b'.'
    || c == b'+'
    || c == b'-'

-- ^v[0-9][0-9A-Za-z.+-]*$
unfoldable pub version_pattern : Text → Bool
version_pattern (v ∷ d ∷ cs) = v == b'v' && leb b'0' d && leb d b'9' && all is_version_character cs
version_pattern short = false

-- ^[0-9a-f]{40}$
unfoldable pub commit_pattern : Text → Bool
commit_pattern s =
    length s == 40 && all (λ c. leb b'0' c && leb c b'9' || leb b'a' c && leb c b'f') s

-- os/arch
abbrev pub target_of : Artifact → Text
target_of a = a.os ++ b'/' ∷ a.arch

abbrev pub complete_set : List Text
complete_set =
    codes "linux/amd64"
    ∷ codes "linux/arm64"
    ∷ codes "darwin/amd64"
    ∷ codes "darwin/arm64"
    ∷ codes "windows/amd64"
    ∷ []

-- completeTargets: each of the five is there, and no other
unfoldable pub complete_targets : List Text → Bool
complete_targets targets = length targets == 5 && all (λ target. elem target targets) complete_set

abbrev pub valid_targets : List Text
valid_targets =
    codes "linux/amd64/.tar.gz"
    ∷ codes "linux/arm64/.tar.gz"
    ∷ codes "darwin/amd64/.tar.gz"
    ∷ codes "darwin/arm64/.tar.gz"
    ∷ codes "windows/amd64/.zip"
    ∷ []

unfoldable pub valid_target : Text → Text → Text → Bool
valid_target os arch extension = elem (os ++ b'/' ∷ (arch ++ b'/' ∷ extension)) valid_targets

abbrev pub trim_suffix : Text → Text → Text
trim_suffix s suffix = take (length s - length suffix) s

-- The parts of an artifact's name, which must be four.
abbrev pub parse_parts :
    (Bytes → Text) → ArtifactInput → Text → Text → List Text → Result ManifestError Artifact
parse_parts hash source version extension (product ∷ v ∷ os ∷ arch ∷ []) = do
  guard (equal product (codes "solomon") && equal v version) invalid_name
  guard (valid_target os arch extension) unsupported_target
  ok (record {
    os = os;
    arch = arch;
    filename = source.name;
    sha256 = hash source.contents;
    signature = source.signature_name;
  })
parse_parts hash source version extension parts = err invalid_name

abbrev pub extension_of : Text → Result ManifestError Text
extension_of name =
    if has_suffix name (codes ".tar.gz")
    then ok (codes ".tar.gz")
    else if has_suffix name (codes ".zip")
    then ok (codes ".zip")
    else err invalid_extension

unfoldable pub parse_artifact :
    (Bytes → Text) → ArtifactInput → Text → Result ManifestError Artifact
unfolding valid_target
parse_artifact hash source version = do
  guard
      (not (equal source.contents [])
        && not (equal source.signature [])
        && equal source.signature_name (source.name ++ codes ".sigstore.json"))
      invalid_signature
  extension ← extension_of source.name
  parse_parts hash source version extension (split_at b'_' (trim_suffix source.name extension))

-- The loop of Generate over the artifacts; `seen` has the targets so far.
unfoldable pub parse_artifacts :
    (Bytes → Text)
    → Text
    → List Text
    → List ArtifactInput
    → Result ManifestError (List Artifact × List Text)
unfolding parse_artifact
parse_artifacts hash version seen [] = ok ([], seen)
parse_artifacts hash version seen (source ∷ sources) = do
  artifact ← parse_artifact hash source version
  guard (not (elem (target_of artifact) seen)) (duplicate_target (target_of artifact))
  rest ← parse_artifacts hash version (target_of artifact ∷ seen) sources
  ok (artifact ∷ rest.0, rest.1)

abbrev pub artifact_before : Artifact → Artifact → Bool
artifact_before a b = if equal a.os b.os then text_lt a.arch b.arch else text_lt a.os b.os

unfoldable pub generate : (Bytes → Text) → Input → Result ManifestError Manifest
unfolding version_pattern commit_pattern parse_artifacts complete_targets
generate hash input = do
  guard
      (equal input.channel (codes "stable")
        && version_pattern input.version
        && commit_pattern input.commit
        && length input.artifacts == 5)
      invalid_input
  parsed ← parse_artifacts hash input.version [] input.artifacts
  guard (complete_targets parsed.1) incomplete_targets
  ok (record {
    schema_version = 1;
    channel = input.channel;
    version = input.version;
    commit = input.commit;
    artifacts = sort artifact_before parsed.0;
  })
