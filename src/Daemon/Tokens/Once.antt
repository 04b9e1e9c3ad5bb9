-- ===== src/Daemon/Tokens/Once.antt =====
-- What a confirmation that the service stored is good for.
use solomon.Prelude.{
  ℕ, ◌+◌, ◌*◌, ◌<◌, ◌≡◌, refl, ◌⊎◌, inl, inr, true, false, ◌||◌, Option, none, some, [], arith,
  Text, equal, equal_iff, equal_refl, ltb→lt,
}
use solomon.Daemon.Tables.{Table, find, delete, put, find-delete_same, find-delete_other}
use solomon.Daemon.Tokens.{
  Confirmation, second, before, consume_confirmation, consume_confirmation_token,
  store_confirmation,
}

-- With the token of the confirmation, in the same session and for the same command, within five
-- seconds, a consumption succeeds.
pub consume_confirmation_token-store_confirmation :
    (session command token : Text) (stored now : ℕ) (t : Table Confirmation)
    → (equal session [] || equal command [] || equal token []) ≡ false
    → now < stored + 5 * second
    → (consume_confirmation_token session command token now
        (store_confirmation session command token stored t)).1
      ≡ true
unfolding consume_confirmation_token store_confirmation put find
consume_confirmation_token-store_confirmation session command token stored now t named h =
    rw (equal_refl session, equal_refl command, equal_refl token) (ground arith)

-- What has to hold of the pending confirmation for a consumption to succeed.
Granted : Text → Text → ℕ → Confirmation → Type 0
Granted command token now pending =
    (equal pending.command command ≡ true)
    × (equal pending.token token ≡ true)
    × (before now pending.expires ≡ true)

module _ (session command token : Text) (now : ℕ) (t : Table Confirmation) where
  granted :
      (o : Option Confirmation)
      → find t session ≡ o
      → (consume_confirmation_token session command token now t).1 ≡ true
      → (pending : Confirmation) × (o ≡ some pending)
        × Granted command token now pending
        × ((consume_confirmation_token session command token now t).0 ≡ delete t session)
  unfolding consume_confirmation_token Granted
  granted none e h = absurd (ground arith)
  granted (some pending) e h = (pending, refl, ground arith, ground arith)

  untouched :
      (o : Option Confirmation)
      → find t session ≡ o
      → ((consume_confirmation_token session command token now t).0 ≡ t)
        ⊎ ((consume_confirmation_token session command token now t).0 ≡ delete t session)
  unfolding consume_confirmation_token
  untouched none e = inl (ground arith)
  untouched (some pending) e = ground arith

-- A success consumes the confirmation: it was made for this command with this token and had not
-- expired, and no later consumption in the session succeeds, at whatever time and with whatever
-- command and token, unless another confirmation is stored.
pub consume_confirmation_token_once :
    (session command token : Text) (now : ℕ) (t : Table Confirmation)
    → (consume_confirmation_token session command token now t).1 ≡ true
    → ((pending : Confirmation) × (find t session ≡ some pending)
        × (pending.command ≡ command)
        × (pending.token ≡ token)
        × (now < pending.expires))
      × (find (consume_confirmation_token session command token now t).0 session ≡ none)
unfolding Granted
consume_confirmation_token_once session command token now t h =
    let (pending, e, (same_command, same_token, live), rest) =
      granted session command token now t (find t session) refl h in
    (
      (
        pending,
        e,
        (equal_iff pending.command command).0 same_command,
        (equal_iff pending.token token).0 same_token,
        ltb→lt now pending.expires live,
      ),
      rw (rest, find-delete_same t session) refl,
    )

-- Whatever a session does to its confirmation, another session's stays as it is.
pub confirmations_apart :
    (session other command token : Text) (now : ℕ) (t : Table Confirmation)
    → equal session other ≡ false
    → (find (consume_confirmation_token session command token now t).0 other ≡ find t other)
      × (find (consume_confirmation session command now t).0 other ≡ find t other)
      × (find (store_confirmation session command token now t) other ≡ find t other)
unfolding consume_confirmation store_confirmation put find
confirmations_apart session other command token now t apart = (
  elim (untouched session command token now t (find t session) refl) [
    | inl same ↦ rw same refl
    | inr deleted ↦ rw deleted (find-delete_other t session other apart)
  ],
  find-delete_other t session other apart,
  rw apart (find-delete_other t session other apart),
)
