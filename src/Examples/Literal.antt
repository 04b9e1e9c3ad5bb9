-- ===== src/Examples/Literal.antt =====
-- A pack whose rule matches a literal text, its publisher's key, and directories that hold it.
use solomon.Prelude.{
  Bool, true, false, Option, none, some, List, [], ◌∷◌, ◌++◌, if◌then◌else◌, Text, codes, equal,
  has_suffix, byte_len,
}
use solomon.Diagnose.Risk.{safe}
use solomon.Packs.Rules.{Rule, Pack, Found, Regexps, CompiledPack}
use solomon.Packs.Runtime.{RuntimePack}
use solomon.Packs.Keyring.{Bytes, Crypto, Keyring}
use solomon.Packs.Store.{DiskCall, regular, real, Disk, Surroundings}

-- Expressions that match themselves only.
abbrev whole_text : Text → Option Found
whole_text v = some record { start = 0; end = byte_len v; groups = [] }

abbrev pub regexps : Regexps
regexps = record {
  Regexp = Text;
  compile = λ p. some p;
  num_subexp = λ p. 0;
  find = λ p v. if equal p v then whole_text v else none;
  expand = λ p template v found. template;
}

abbrev pub rule : Rule
rule = record {
  id = codes "push-typo";
  command = codes "git";
  pattern = codes "psuh";
  replacement = codes "push";
  preserve_tail = false;
  cause = codes "unknown subcommand";
  risk = safe;
  risk_rationale = codes "read only";
}

abbrev pub pack : Pack
pack = record {
  schema_version = 1;
  id = codes "core-git";
  version = codes "1.0.0";
  publisher = codes "solomon";
  min_engine_version = codes "0.9.0";
  capabilities = codes "matcher-v1" ∷ [];
  rules = rule ∷ [];
}

abbrev pub compiled : CompiledPack regexps
compiled = record { pack = pack; rules = record { rule = rule; pattern = codes "psuh" } ∷ [] }

abbrev pub resolver : List (RuntimePack regexps)
resolver = record { compiled = compiled; source = codes "bundled" } ∷ []

-- Keys are written as they are, and every signature is taken for verified.
abbrev pub crypto : Crypto
crypto = record {
  decode = λ t. some t;
  encode = λ key. key;
  verify = λ key payload signature. true;
}

abbrev pub key : Bytes
key = codes "0123456789abcdef0123456789abcdef"

abbrev pub signature : Bytes
signature = key ++ key

abbrev pub payload : Bytes
payload = codes "{}"

abbrev pub keyring : Keyring
keyring = record {
  publishers = record { id = codes "solomon"; public_key = key } ∷ [];
  revoked = [];
}

abbrev pub surroundings : Surroundings
surroundings = record {
  regexps = regexps;
  crypto = crypto;
  decode_pack = λ contents. some pack;
  fails = λ call. false;
}

abbrev is_pack_write : DiskCall → Bool
is_pack_write (DiskCall.write name) = has_suffix name (codes ".json")
is_pack_write call = false

-- Surroundings in which no pack can be written.
abbrev pub full : Surroundings
full = record surroundings { fails = is_pack_write }

abbrev pub target : Text
target = codes "core-git-1.0.0.json"

abbrev pub empty_disk : Disk
empty_disk = record { place = real; files = [] }

abbrev pub installed_disk : Disk
installed_disk = record {
  place = real;
  files = (target, regular payload) ∷ (codes "core-git-1.0.0.json.sig", regular signature) ∷ [];
}
