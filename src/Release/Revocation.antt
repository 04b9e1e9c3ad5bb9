-- ===== src/Release/Revocation.antt =====
-- The revocation of a release in internal/releasepolicy/revocation.go. The time is given as its
-- text in UTC, or none for the zero time.
use solomon.Prelude.{
  ℕ, not, ◌&&◌, Option, none, some, [], leb, Result, ok, err, ◌>>◌, guard, Text, equal, trim_space,
  byte_len,
}
use solomon.Release.Channel.{version_pattern}

pub record Revocation : Type 0 where
  pub schema_version : ℕ
  pub revoked_version : Text
  pub replacement_version : Text
  pub reason : Text
  pub revoked_at : Text

pub data RevocationError : Type 0 where
  invalid_versions invalid_reason_or_time : RevocationError

abbrev pub at_time : Text → Text → Text → Option Text → Result RevocationError Revocation
at_time revoked replacement reason none = err invalid_reason_or_time
at_time revoked replacement reason (some time) = ok (record {
  schema_version = 1;
  revoked_version = revoked;
  replacement_version = replacement;
  reason = reason;
  revoked_at = time;
})

unfoldable pub new_revocation : Text → Text → Text → Option Text → Result RevocationError Revocation
new_revocation revoked replacement reason at = do
  guard (version_pattern revoked && version_pattern replacement && not (equal revoked replacement))
      invalid_versions
  guard (not (equal (trim_space reason) []) && leb (byte_len (trim_space reason)) 1024)
      invalid_reason_or_time
  at_time revoked replacement (trim_space reason) at
