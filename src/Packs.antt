-- ===== src/Packs.antt =====
-- The packs of internal/packs: the templates of their rules.
pub mod Templates
pub mod State
pub mod Versions
pub mod Rules
pub mod Runtime
pub mod Keyring
pub mod Store
pub mod Loading
pub mod Candidates
pub mod Activation
