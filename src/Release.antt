-- ===== src/Release.antt =====
-- The checks of release data: internal/updatechannel, releasecompat, releasepolicy, runtimecheck.
pub mod Channel
pub mod Matrix
pub mod Revocation
pub mod RuntimeCheck
