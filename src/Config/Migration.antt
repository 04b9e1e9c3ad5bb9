-- ===== src/Config/Migration.antt =====
-- migrate and the end of decode, of internal/config/config.go. The JSON decoder gives the decoded
-- configuration and the file's version, which may be negative.
use solomon.Prelude.{
  ℕ, zero, suc, ◌+◌, ◌-◌, ◌≤◌, ◌<◌, ◌≡◌, refl, ◌⊎◌, true, false, not, ◌&&◌, ◌||◌, arith, ltb, leb,
  ◌==◌, if◌then◌else◌, Result, ok, err, ◌>>=◌, >>=-eq-ok,
}
use solomon.Config.Defs.{
  ConfigError, unsupported_version, hint, is_mode_interrupt, is_mode_rewrite, Config,
  current_schema_version, validate, IsValid, validate-IsValid,
}

pub data Version : Type 0 where
  pos : ℕ → Version
  negative : ℕ → Version

abbrev withdraw : Config → Config
withdraw cfg =
    if is_mode_rewrite cfg.mode || is_mode_interrupt cfg.mode
    then record cfg { mode = hint; auto_apply_safe = false; risk_interrupt = false }
    else cfg

-- One case of the switch; each sets the schema version to the next one.
unfoldable pub migrate_step : ℕ → Config → Config
migrate_step version cfg =
    if version == 0
    then record cfg { risk_interrupt = is_mode_interrupt cfg.mode; schema_version = 1 }
    else if version == 1
    then record cfg { risk_interrupt = is_mode_interrupt cfg.mode; schema_version = 2 }
    else if version == 2
    then record cfg { schema_version = 3 }
    else if version == 3
    then record cfg { curated_packs_enabled = true; schema_version = 4 }
    else if version == 4
    then (let c = withdraw cfg in record c { schema_version = 5 })
    else if version == 5
    then record cfg { local_history_enabled = false; schema_version = 6 }
    else record cfg { schema_version = 7 }

-- `for version < CurrentSchemaVersion`, with the rounds that are left.
unfoldable pub migrate_loop : ℕ → ℕ → Config → Config
migrate_loop zero version cfg = cfg
migrate_loop (suc rounds) version cfg = migrate_loop rounds (version + 1) (migrate_step version cfg)

unfoldable pub migrate : Config → Version → Result ConfigError Config
unfolding migrate_loop
migrate cfg (negative n) = err unsupported_version
migrate cfg (pos version) =
    if ltb current_schema_version version
    then err unsupported_version
    else ok (migrate_loop (current_schema_version - version) version cfg)

-- decode behind the JSON decoder: migration, then the checks.
unfoldable pub finish_decode : Config → Version → Result ConfigError Config
finish_decode base version = do migrated ← migrate base version; validate migrated

-- What a migration of a file of this version makes of its configuration; each test is an
-- implication, from the version to what holds then.
pub record IsMigrated (version : ℕ) (old new : Config) : Type 0 where
  pub current : (version < 7) × (new.schema_version ≡ 7) ⊎ (new ≡ old)
  pub history_dropped : (leb version 5 && new.local_history_enabled) ≡ false
  pub no_interrupt : (leb version 4 && is_mode_interrupt new.mode) ≡ false
  pub no_rewrite : (leb version 4 && is_mode_rewrite new.mode) ≡ false
  pub withdrawn :
      (leb version 4
        && (is_mode_rewrite old.mode || is_mode_interrupt old.mode)
        && (new.auto_apply_safe || new.risk_interrupt))
      ≡ false
  pub packs_enabled : (leb version 3 && not new.curated_packs_enabled) ≡ false
  pub exceptions_kept : new.rule_exceptions ≡ old.rule_exceptions

migrate_loop-IsMigrated :
    (version : ℕ) (cfg : Config)
    → version ≤ 7
    → IsMigrated version cfg (migrate_loop (7 - version) version cfg)
unfolding migrate_loop migrate_step
migrate_loop-IsMigrated zero cfg h = ground arith
migrate_loop-IsMigrated (suc zero) cfg h = ground arith
migrate_loop-IsMigrated (suc (suc zero)) cfg h = ground arith
migrate_loop-IsMigrated (suc (suc (suc zero))) cfg h = ground arith
migrate_loop-IsMigrated (suc (suc (suc (suc zero)))) cfg h = ground arith
migrate_loop-IsMigrated (suc (suc (suc (suc (suc zero))))) cfg h = ground arith
migrate_loop-IsMigrated (suc (suc (suc (suc (suc (suc zero)))))) cfg h = ground arith
migrate_loop-IsMigrated (suc (suc (suc (suc (suc (suc (suc zero))))))) cfg h = ground arith
migrate_loop-IsMigrated (suc (suc (suc (suc (suc (suc (suc (suc n)))))))) cfg h =
    absurd (omega arith)

-- A file of version 0 to 7 is always migrated: an older one to version 7, one of version 7 to
-- itself; a file of a version up to 4 can neither interrupt nor rewrite afterwards, whatever it
-- said, up to 5 it keeps no history, and the rule exceptions stay.
pub migrate-IsMigrated :
    (version : ℕ) (cfg : Config)
    → version ≤ 7
    → (new : Config) × (migrate cfg (pos version) ≡ ok new) × IsMigrated version cfg new
unfolding migrate
migrate-IsMigrated version cfg h =
    (migrate_loop (7 - version) version cfg, ground arith, migrate_loop-IsMigrated version cfg h)

-- A later version and a negative one are refused.
pub migrate_unsupported :
    (n : ℕ) (cfg : Config)
    → (migrate cfg (pos (n + 8)) ≡ err unsupported_version)
      × (migrate cfg (negative n) ≡ err unsupported_version)
unfolding migrate
migrate_unsupported n cfg = (ground arith, refl)

-- A configuration that decode returns is valid.
pub finish_decode-IsValid :
    (base : Config) (version : Version) {c : Config} → finish_decode base version ≡ ok c → IsValid c
unfolding finish_decode
finish_decode-IsValid base version {c} h =
    let (migrated, m, v) = >>=-eq-ok (migrate base version) validate h in
    let (e, valid) = validate-IsValid migrated c v in rw e valid
