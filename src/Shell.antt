-- ===== src/Shell.antt =====
-- The shell integration of internal/shell: what it does with a response.
pub mod Actions
