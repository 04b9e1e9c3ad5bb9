-- ===== src/Daemon/Handle/Undos.antt =====
-- The pending undos across the requests that Service.Handle serves.
use solomon.Prelude.{ℕ, ◌≡◌, []}
use solomon.Daemon.Protocol.{Request}
use solomon.Daemon.Service.{Setting, State}
use solomon.Daemon.Handle.{handle}

module _ (setting : Setting) where
  abbrev ttl : ℕ
  ttl = setting.config.undo_ttl_seconds

-- The states a service goes through: it starts with nothing pending and serves requests one after
-- the other, each with its own clock, random source, packs and engine, under one time to live.
pub data Served (ttl : ℕ) : State → Type 0 where
  start : Served ttl (record { confirmations = []; undos = []; failures = [] })
  serve :
      (setting : Setting) (req : Request) (state : State)
      → setting.config.undo_ttl_seconds ≡ ttl
      → Served ttl state
      → Served ttl (handle setting req state).0
