-- ===== src/Release/Channel/Complete.antt =====
-- What a generated manifest holds.
use solomon.Prelude.{
  ◌+◌, ◌≡◌, refl, ap, ◌∙◌, Bool, true, false, not, ◌&&◌, ◌||◌, List, [], ◌∷◌, ◌++◌, arith, ◌==◌, ok,
  guard, >>=-eq-ok, length, all, All, Text, codes, equal, equal_iff, elem, split_at, and_true,
  insert, sort, length-sort, All-sort,
}
use solomon.Release.Channel.{
  Bytes, ArtifactInput, Input, Artifact, Manifest, ManifestError, version_pattern, commit_pattern,
  target_of, complete_set, complete_targets, parse_artifact, parse_artifacts, artifact_before,
  generate, parse_parts, extension_of, trim_suffix,
}

abbrev pub target_texts : List Artifact → List Text
target_texts [] = []
target_texts (a ∷ artifacts) = target_of a ∷ target_texts artifacts

elem-insert :
    (target : Text) (a : Artifact) (artifacts : List Artifact)
    → elem target (target_texts (insert artifact_before a artifacts))
      ≡ (equal target (target_of a) || elem target (target_texts artifacts))
unfolding elem insert
elem-insert target a [] = refl
elem-insert target a (b ∷ artifacts) = let rest = elem-insert target a artifacts in ground arith

elem-sort :
    (target : Text) (artifacts : List Artifact)
    → elem target (target_texts (sort artifact_before artifacts))
      ≡ elem target (target_texts artifacts)
unfolding elem sort
elem-sort target [] = refl
elem-sort target (a ∷ artifacts) =
    elem-insert target a (sort artifact_before artifacts)
    ∙ ap (λ (b : Bool). equal target (target_of a) || b) (elem-sort target artifacts)

-- The signature stands beside the file.
abbrev pub IsSigned : Artifact → Type 0
IsSigned a = a.signature ≡ a.filename ++ codes ".sigstore.json"

nothing :
    (seen : List Text) (target : Text) → elem target seen ≡ (elem target [] || elem target seen)
unfolding elem
nothing seen target = refl

module _ (hash : Bytes → Text) (version : Text) where
  parse_parts-IsSigned :
      (source : ArtifactInput) (extension : Text) (parts : List Text) (a : Artifact)
      → source.signature_name ≡ source.name ++ codes ".sigstore.json"
      → parse_parts hash source version extension parts ≡ ok a
      → IsSigned a
  parse_parts-IsSigned source extension (product ∷ v ∷ os ∷ arch ∷ []) a e h =
      let name : a.filename ≡ source.name = ground arith in
      let signature : a.signature ≡ source.signature_name = ground arith in rw (name, signature) e
  parse_parts-IsSigned source extension parts a e h = absurd (cc)

  parse_artifact-IsSigned :
      (source : ArtifactInput) (a : Artifact)
      → parse_artifact hash source version ≡ ok a
      → IsSigned a
  unfolding parse_artifact
  parse_artifact-IsSigned source a h =
      let (_, signed, h1) =
        >>=-eq-ok
          (guard
            (not (equal source.contents [])
              && not (equal source.signature [])
              && equal source.signature_name (source.name ++ codes ".sigstore.json"))
            ManifestError.invalid_signature)
          _ h in
      let (extension, _, parsed) = >>=-eq-ok (extension_of source.name) _ h1 in
      parse_parts-IsSigned source extension (split_at b'_' (trim_suffix source.name extension)) a
        ((equal_iff _ _).0 (ground arith)) parsed

  -- What the loop over the artifacts leaves: their targets are those seen before and theirs.
  record Parsed (seen : List Text) (artifacts : List Artifact) (after : List Text) : Type 0 where
    count : length after ≡ length artifacts + length seen
    each_signed : All IsSigned artifacts
    targets :
        (target : Text)
        → elem target after ≡ (elem target (target_texts artifacts) || elem target seen)

  Parsed-cons :
      (seen after : List Text) (a : Artifact) (artifacts : List Artifact)
      → IsSigned a
      → Parsed (target_of a ∷ seen) artifacts after
      → Parsed seen (a ∷ artifacts) after
  unfolding elem
  Parsed-cons seen after a artifacts signed p = record {
    count = ground (arith, p.count);
    each_signed = (signed, p.each_signed);
    targets = λ target. ground (arith, p.targets target);
  }

  parse_artifacts-Parsed :
      (seen : List Text) (sources : List ArtifactInput) (result : List Artifact × List Text)
      → parse_artifacts hash version seen sources ≡ ok result
      → Parsed seen result.0 result.1
  unfolding parse_artifacts
  parse_artifacts-Parsed seen [] (artifacts, after) h =
      let none_left : artifacts ≡ [] = ground arith in
      let same : after ≡ seen = ground arith in
      rw (none_left, same) record { count = omega arith; each_signed = tt; targets = nothing seen }
  parse_artifacts-Parsed seen (source ∷ sources) (artifacts, after) h =
      let (a, parsed, h1) = >>=-eq-ok (parse_artifact hash source version) _ h in
      let (_, _, h2) =
        >>=-eq-ok
          (guard (not (elem (target_of a) seen)) (ManifestError.duplicate_target (target_of a))) _
          h1 in
      let (rest, others, done) =
        >>=-eq-ok (parse_artifacts hash version (target_of a ∷ seen) sources) _ h2 in
      let first : artifacts ≡ a ∷ rest.0 = ground arith in
      let last : after ≡ rest.1 = ground arith in
      rw (first, last)
        (Parsed-cons seen rest.1 a rest.0 (parse_artifact-IsSigned source a parsed)
          (parse_artifacts-Parsed (target_of a ∷ seen) sources rest others))

all-ext : (p q : Text → Bool) (xs : List Text) → ((x : Text) → p x ≡ q x) → all p xs ≡ all q xs
all-ext p q [] e = refl
all-ext p q (x ∷ xs) e = rw (e x, all-ext p q xs e) refl

listed :
    (after : List Text) (artifacts : List Artifact) (target : Text)
    → elem target after ≡ (elem target (target_texts artifacts) || elem target [])
    → elem target (target_texts (sort artifact_before artifacts)) ≡ elem target after
unfolding elem
listed after artifacts target e = elem-sort target artifacts ∙ ground (arith, e)

guard-true : {E : Type 0} (b : Bool) (e : E) → guard b e ≡ ok tt → b ≡ true
guard-true true e h = refl
guard-true false e h = absurd (cc)

complete_parts :
    (targets : List Text)
    → complete_targets targets ≡ true
    → (length targets ≡ 5) × (all (λ target. elem target targets) complete_set ≡ true)
unfolding complete_targets
complete_parts targets h =
    let (five, each) = and_true (length targets == 5) _ h in (ground arith, each)

first_three : (a b c d : Bool) → (a && b && c && d) ≡ true → (a && b && c) ≡ true
first_three a b c d h = ground arith

-- A manifest that is generated has an artifact for each of the five targets and no other one, each
-- with the signature that stands beside its file, for the stable channel, a version and a commit.
pub generate-complete_set :
    (hash : Bytes → Text) (input : Input) (m : Manifest)
    → generate hash input ≡ ok m
    → (length m.artifacts ≡ 5)
      × (all (λ target. elem target (target_texts m.artifacts)) complete_set ≡ true)
      × All IsSigned m.artifacts
      × ((equal m.channel (codes "stable") && version_pattern m.version && commit_pattern m.commit)
          ≡ true)
unfolding generate complete_targets
generate-complete_set hash input m h =
    let (_, checked, h1) =
      >>=-eq-ok
        (guard
          (equal input.channel (codes "stable")
            && version_pattern input.version
            && commit_pattern input.commit
            && length input.artifacts == 5)
          ManifestError.invalid_input)
        _ h in
    let (parsed, parses, h2) =
      >>=-eq-ok (parse_artifacts hash input.version [] input.artifacts) _ h1 in
    let (_, complete, done) =
      >>=-eq-ok (guard (complete_targets parsed.1) ManifestError.incomplete_targets) _ h2 in
    let p = parse_artifacts-Parsed hash input.version [] input.artifacts parsed parses in
    let artifacts : m.artifacts ≡ sort artifact_before parsed.0 = ground arith in
    let parts : complete_targets parsed.1 ≡ true = guard-true _ _ complete in
    let (five, each) = complete_parts parsed.1 parts in
    let channel : m.channel ≡ input.channel = ground arith in
    let version : m.version ≡ input.version = ground arith in
    let commit : m.commit ≡ input.commit = ground arith in
    (
      rw artifacts (length-sort artifact_before parsed.0 ∙ omega (arith, p.count, five)),
      rw artifacts (
          all-ext (λ target. elem target (target_texts (sort artifact_before parsed.0)))
            (λ target. elem target parsed.1) complete_set
            (λ target. listed parsed.1 parsed.0 target (p.targets target))
          ∙ each),
      rw artifacts (All-sort artifact_before IsSigned parsed.0 p.each_signed),
      rw (channel, version, commit)
          (first_three (equal input.channel (codes "stable")) (version_pattern input.version)
            (commit_pattern input.commit) (length input.artifacts == 5) (guard-true _ _ checked)),
    )
