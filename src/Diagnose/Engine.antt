-- ===== src/Diagnose/Engine.antt =====
-- The engine of internal/diagnose/engine.go, in the order in which a check runs through it.
pub mod Values
pub mod Modes
pub mod Repairs
pub mod Paths
pub mod Check
