-- ===== src/Packs/Loading/Trusted.antt =====
-- Which installed packs are loaded.
use solomon.Prelude.{
  ◌≡◌, refl, inl, inr, true, false, not, Option, none, some, List, [], ◌∷◌, arith, Bool-cases,
  Result, ok, err, ◌>>=◌, guard, >>=-eq-ok, All, Text, codes, equal, equal_iff, has_suffix, sort,
  All-sort,
}
use solomon.Daemon.Tables.{Table, find}
use solomon.Packs.Rules.{Pack, CompiledPack, compile}
use solomon.Packs.Runtime.{resolve}
use solomon.Packs.Keyring.{
  Bytes, Crypto, Keyring, KeyError, public_key, revoked_for, verify_with, verify_detached_signature,
  verify_publisher_signature,
}
use solomon.Packs.Store.{
  Entry, regular, folder, link, Place, missing, real, unreal, DiskCall, Disk, StoreError,
  installed_pack_name, signature_of, or_store_error, decoded, Surroundings, called, regular_at,
  bad_pack, bad_key,
}
use solomon.Packs.Loading.{
  loaded_before, contents_of, load_file, load_entries, load_place, load_installed, check_signature,
  check_signatures, load_installed_verified,
}

or_store_error-ok {ℓ} :
    {E : Type 0} {A : Type ℓ} (wrap : E → StoreError) (r : Result E A) (a : A)
    → or_store_error wrap r ≡ ok a
    → r ≡ ok a
or_store_error-ok wrap (err e) a h = absurd (cc)
or_store_error-ok wrap (ok b) a h = cc

decoded-ok : (o : Option Pack) (p : Pack) → decoded o ≡ ok p → o ≡ some p
decoded-ok none p h = absurd (cc)
decoded-ok (some q) p h = cc

contents_of-ok : (o : Option Entry) (b : Bytes) → contents_of o ≡ ok b → o ≡ some (regular b)
contents_of-ok none b h = absurd (cc)
contents_of-ok (some (regular c)) b h = cc
contents_of-ok (some folder) b h = absurd (cc)
contents_of-ok (some link) b h = absurd (cc)

-- A signature is accepted only for a publisher that is not revoked, and by the publisher's key.
verify_with-ok :
    (crypto : Crypto) (payload signature : Bytes) (o : Option Bytes)
    → verify_with crypto payload signature o ≡ ok tt
    → (key : Bytes) × (o ≡ some key) × (crypto.verify key payload signature ≡ true)
unfolding verify_detached_signature
verify_with-ok crypto payload signature none h = absurd (cc)
verify_with-ok crypto payload signature (some key) h = (key, refl, ground arith)

module _ (s : Surroundings) (disk : Disk) where
  -- A pack as it is installed: its file holds it, under its own name, and it compiles.
  pub record IsInstalled (p : Pack) : Type 0 where
    pub payload : Bytes
    pub compiled : CompiledPack s.regexps
    pub payload_at : find disk.files (installed_pack_name p) ≡ some (regular payload)
    pub payload_is : s.decode_pack payload ≡ some p
    pub compiles : compile s.regexps p ≡ ok compiled

  -- A pack as it is trusted: a file beside it holds a signature of its contents by the key that
  -- the keyring has for its publisher, who is not revoked.
  pub record IsTrusted (keyring : Keyring) (p : Pack) : Type 0 where
    pub payload : Bytes
    pub signature : Bytes
    pub key : Bytes
    pub payload_at : find disk.files (installed_pack_name p) ≡ some (regular payload)
    pub signature_at :
        find disk.files (signature_of (installed_pack_name p)) ≡ some (regular signature)
    pub not_revoked : revoked_for keyring p.publisher ≡ false
    pub publisher_key : public_key s.crypto keyring p.publisher ≡ some key
    pub verified : s.crypto.verify key payload signature ≡ true

  -- Every name in the directory stands for one file.
  abbrev pub EachFound : Table Entry → Type 0
  EachFound entries = All (λ (e : Text × Entry). find disk.files e.0 ≡ some e.1) entries

  load_file-IsInstalled :
      (name : Text) (contents : Bytes) (p : Pack)
      → find disk.files name ≡ some (regular contents)
      → load_file s name contents ≡ ok p
      → IsInstalled p
  unfolding load_file
  load_file-IsInstalled name contents p found h =
      let (_, _, h1) = >>=-eq-ok (called s (DiskCall.read name)) _ h in
      let (q, is_pack, h2) = >>=-eq-ok (decoded (s.decode_pack contents)) _ h1 in
      let (_, named, h3) =
        >>=-eq-ok (guard (equal name (installed_pack_name q)) (StoreError.not_canonical name)) _
          h2 in
      let (c, compiled, done) = >>=-eq-ok (or_store_error bad_pack (compile s.regexps q)) _ h3 in
      let same : p ≡ q = cc in
      let canonical : name ≡ installed_pack_name q = (equal_iff _ _).0 (ground arith) in
      rw same record {
        payload = contents;
        compiled = c;
        payload_at = rw (← canonical) found;
        payload_is = decoded-ok _ q is_pack;
        compiles = or_store_error-ok bad_pack _ c compiled;
      }

  load_entries-IsInstalled :
      (entries : Table Entry) (packs : List Pack)
      → EachFound entries
      → load_entries s entries ≡ ok packs
      → All IsInstalled packs
  unfolding load_entries
  load_entries-IsInstalled [] [] found h = tt
  load_entries-IsInstalled [] (p ∷ packs) found h = absurd (cc)
  load_entries-IsInstalled ((name, folder) ∷ entries) packs found h =
      load_entries-IsInstalled entries packs found.1 h
  load_entries-IsInstalled ((name, link) ∷ entries) packs found h =
      load_entries-IsInstalled entries packs found.1 (ground arith)
  load_entries-IsInstalled ((name, regular contents) ∷ entries) packs found h =
      elim (Bool-cases (has_suffix name (codes ".json"))) [
        | inr other ↦ load_entries-IsInstalled entries packs found.1 (ground arith)
        | inl json ↦
            let h0 : (load_file s name contents >>= λ pack.
            load_entries s entries >>= λ rest. ok (pack ∷ rest))
                ≡ ok packs =
              ground arith in
            let (p, loaded, h1) = >>=-eq-ok (load_file s name contents) _ h0 in
            let (rest, others, done) = >>=-eq-ok (load_entries s entries) _ h1 in
            let same : packs ≡ p ∷ rest = cc in
            rw same (
              load_file-IsInstalled name contents p found.0 loaded,
              load_entries-IsInstalled entries rest found.1 others,
            )
      ]

  load_place-IsInstalled :
      (place : Place) (packs : List Pack)
      → EachFound disk.files
      → load_place s disk place ≡ ok packs
      → All IsInstalled packs
  load_place-IsInstalled missing [] found h = tt
  load_place-IsInstalled missing (p ∷ packs) found h = absurd (cc)
  load_place-IsInstalled unreal packs found h = absurd (cc)
  load_place-IsInstalled real packs found h =
      let (_, _, h1) = >>=-eq-ok (called s DiskCall.read_directory) _ h in
      let (loaded, entries, h2) = >>=-eq-ok (load_entries s disk.files) _ h1 in
      let (_, _, done) =
        >>=-eq-ok (or_store_error bad_pack (resolve s.regexps (sort loaded_before loaded))) _ h2 in
      let same : packs ≡ sort loaded_before loaded = cc in
      rw same (
        All-sort loaded_before IsInstalled loaded
          (load_entries-IsInstalled disk.files loaded found entries))

  module _ (keyring : Keyring) where
    check_signature-IsTrusted :
        (p : Pack) → check_signature s disk keyring p ≡ ok tt → IsTrusted keyring p
    unfolding check_signature verify_publisher_signature
    check_signature-IsTrusted p h =
        let name = installed_pack_name p in
        let (_, _, h1) = >>=-eq-ok (called s (DiskCall.read name)) _ h in
        let (payload, payload_at, h2) = >>=-eq-ok (contents_of (find disk.files name)) _ h1 in
        let (_, _, h3) = >>=-eq-ok (called s (DiskCall.inspect (signature_of name))) _ h2 in
        let (_, _, h4) =
          >>=-eq-ok (regular_at s (signature_of name) (find disk.files (signature_of name))) _ h3 in
        let (_, _, h5) = >>=-eq-ok (called s (DiskCall.read (signature_of name))) _ h4 in
        let (signature, signature_at, h6) =
          >>=-eq-ok (contents_of (find disk.files (signature_of name))) _ h5 in
        let verified =
          or_store_error-ok bad_key
            (verify_publisher_signature s.crypto payload signature p.publisher keyring) tt h6 in
        let (_, fresh, h7) =
          >>=-eq-ok (guard (not (revoked_for keyring p.publisher)) KeyError.key_revoked) _
            verified in
        let (key, is_key, signed) =
          verify_with-ok s.crypto payload signature (public_key s.crypto keyring p.publisher) h7 in
        record {
          payload = payload;
          signature = signature;
          key = key;
          payload_at = contents_of-ok _ payload payload_at;
          signature_at = contents_of-ok _ signature signature_at;
          not_revoked = ground arith;
          publisher_key = is_key;
          verified = signed;
        }

    check_signatures-IsTrusted :
        (packs : List Pack)
        → check_signatures s disk keyring packs ≡ ok tt
        → All (IsTrusted keyring) packs
    unfolding check_signatures
    check_signatures-IsTrusted [] h = tt
    check_signatures-IsTrusted (p ∷ packs) h =
        let (_, first, rest) = >>=-eq-ok (check_signature s disk keyring p) _ h in
        (check_signature-IsTrusted p first, check_signatures-IsTrusted packs rest)

    -- Every pack that is loaded from a directory, each of whose names stands for one file, is the
    -- contents of the file with its own name and compiles; and beside it a signature of these
    -- contents is verified by the key that the keyring has for its publisher, who is not revoked.
    pub load_installed_verified-IsTrusted :
        (packs : List Pack)
        → EachFound disk.files
        → load_installed_verified s disk keyring ≡ ok packs
        → All IsInstalled packs × All (IsTrusted keyring) packs
    unfolding load_installed_verified load_installed
    load_installed_verified-IsTrusted packs found h =
        let (loaded, loads, h1) = >>=-eq-ok (load_installed s disk) _ h in
        let (_, signed, done) = >>=-eq-ok (check_signatures s disk keyring loaded) _ h1 in
        let (_, _, placed) = >>=-eq-ok (called s DiskCall.inspect_directory) _ loads in
        let same : packs ≡ loaded = cc in
        rw same (
          load_place-IsInstalled disk.place loaded found placed,
          check_signatures-IsTrusted loaded signed,
        )
