-- ===== src/Daemon/Tokens.antt =====
-- The pending confirmations and undos of internal/daemon/service.go. Each operation holds the
-- service's lock from start to end, and reads the clock once: `now`, in nanoseconds.
pub mod Once
pub mod Undos
use solomon.Prelude.{
  ℕ, ◌+◌, ◌*◌, Bool, true, false, not, ◌&&◌, ◌||◌, Option, none, some, [], ltb, if◌then◌else◌, Text,
  equal,
}
use solomon.Daemon.Tables.{Table, find, keep, delete, put}

pub record Confirmation : Type 0 where
  pub command : Text
  pub token : Text
  pub expires : ℕ

pub record PendingUndo : Type 0 where
  pub session : Text
  pub command : Text
  pub expires : ℕ

abbrev pub second : ℕ
second = 1000000000

-- now.Before(expires)
abbrev pub before : ℕ → ℕ → Bool
before now expires = ltb now expires

abbrev pub confirmed : Text → ℕ → Option Confirmation → Bool
confirmed command now none = false
confirmed command now (some pending) = equal pending.command command && before now pending.expires

unfoldable pub consume_confirmation :
    Text → Text → ℕ → Table Confirmation → Table Confirmation × Bool
consume_confirmation session command now confirmations =
    (delete confirmations session, confirmed command now (find confirmations session))

unfoldable pub consume_confirmation_token :
    Text → Text → Text → ℕ → Table Confirmation → Table Confirmation × Bool
consume_confirmation_token session command token now confirmations =
    if equal session [] || equal command [] || equal token []
    then (confirmations, false)
    else elim (find confirmations session) [
      | none ↦ (confirmations, false)
      | some pending ↦
          if not (before now pending.expires)
          then (delete confirmations session, false)
          else if not (equal pending.command command) || not (equal pending.token token)
          then (confirmations, false)
          else (delete confirmations session, true)
    ]

unfoldable pub store_confirmation : Text → Text → Text → ℕ → Table Confirmation → Table Confirmation
store_confirmation session command token now confirmations =
    put confirmations session
      (record { command = command; token = token; expires = now + 5 * second })

unfoldable pub remove_expired_undos : ℕ → Table PendingUndo → Table PendingUndo
remove_expired_undos now = keep (λ token pending. before now pending.expires)

unfoldable pub remove_undos_of : Text → Table PendingUndo → Table PendingUndo
remove_undos_of session = keep (λ token pending. not (equal pending.session session))

unfoldable pub clear_pending_undo : Text → Table PendingUndo → Table PendingUndo
clear_pending_undo session undos = if equal session [] then undos else remove_undos_of session undos

-- `ttl` is Config.UndoTTLSeconds.
unfoldable pub store_undo_token : ℕ → Text → Text → Text → ℕ → Table PendingUndo → Table PendingUndo
store_undo_token ttl token session command now undos =
    put (remove_undos_of session (remove_expired_undos now undos)) token
      (record { session = session; command = command; expires = now + ttl * second })

unfoldable pub consume_undo_token :
    Text → Text → ℕ → Table PendingUndo → Table PendingUndo × Option PendingUndo
consume_undo_token session token now undos =
    if equal session [] || equal token []
    then (undos, none)
    else let live = remove_expired_undos now undos in
      elim (find live token) [
        | none ↦ (live, none)
        | some pending ↦
            if equal pending.session session
            then (delete live token, some pending)
            else (live, none)
      ]
