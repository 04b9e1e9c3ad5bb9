-- ===== src/Daemon.antt =====
-- The daemon of internal/daemon: its protocol, its one-time tokens, and the requests it serves.
pub mod Tables
pub mod Protocol
pub mod Tokens
pub mod Learning
pub mod Evidence
pub mod Service
pub mod PreSend
pub mod Handle
