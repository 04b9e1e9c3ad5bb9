-- ===== src/Examples.antt =====
-- Runs of the model on concrete inputs.
pub mod Engine
pub mod Words
pub mod Daemon
pub mod Config
pub mod Packs
pub mod Learned
pub mod Shell
pub mod Literal
pub mod Managed
pub mod Around
pub mod Resubmitted
pub mod Loaded
pub mod Tests
