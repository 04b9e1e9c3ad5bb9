-- ===== src/Daemon/Handle/Resubmitted.antt =====
-- What follows an interruption: its confirmation.
use solomon.Prelude.{Text}
use solomon.Daemon.Protocol.{Request, confirm}
use solomon.Daemon.PreSend.Asked.{Asked}

-- The request that confirms the line of another one with a token.
abbrev pub confirming : Request → Text → Request
confirming r token = record r { operation = confirm; token = token }
