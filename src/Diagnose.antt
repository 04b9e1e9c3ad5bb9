-- ===== src/Diagnose.antt =====
-- internal/diagnose/engine.go, one module for each group of its functions.
pub mod Distance
pub mod Rank
pub mod Tokens
pub mod Replace
pub mod Commands
pub mod Risk
pub mod Shells
pub mod Decision
pub mod Executables
pub mod Diff
pub mod Protocol
pub mod Engine
