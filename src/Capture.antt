-- ===== src/Capture.antt =====
-- The capture of a command's output, internal/capture.
pub mod Relay
