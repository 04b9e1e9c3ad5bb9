-- ===== src/Daemon/Tokens/Undos.antt =====
-- The pending undos under any interleaving of the service's operations on them.
use solomon.Prelude.{
  ℕ, ◌<◌, ◌≡◌, sym, inl, inr, Bool, true, false, not, ◌||◌, Option, none, some, [], ◌∷◌, Bool-cases,
  Option-cases, All, Text, equal, equal_iff, ltb→lt,
}
use solomon.Daemon.Tables.{
  Table, find, keep, delete, put, find-keep, find-delete_same, find-delete_same,
}
use solomon.Daemon.Tokens.{
  PendingUndo, remove_expired_undos, remove_undos_of, clear_pending_undo, store_undo_token,
  consume_undo_token,
}

-- One locked operation on the undos.
pub data Step (ttl : ℕ) : Table PendingUndo → Table PendingUndo → Type 0 where
  cleared : (session : Text) (t : Table PendingUndo) → Step ttl t (clear_pending_undo session t)
  stored :
      (token session command : Text) (now : ℕ) (t : Table PendingUndo)
      → Step ttl t (store_undo_token ttl token session command now t)
  consumed :
      (session token : Text) (now : ℕ) (t : Table PendingUndo)
      → Step ttl t (consume_undo_token session token now t).0

pub data Reachable (ttl : ℕ) : Table PendingUndo → Type 0 where
  initial : Reachable ttl []
  next : {t t' : Table PendingUndo} → Reachable ttl t → Step ttl t t' → Reachable ttl t'

-- Is the undo of this entry another session's?
abbrev OfOther : Text → Text × PendingUndo → Type 0
OfOther session (token, pending) = equal pending.session session ≡ false

-- A session has at most one pending undo.
pub OnePerSession : Table PendingUndo → Type 0
OnePerSession [] = Unit
OnePerSession ((token, pending) ∷ t) = All (OfOther pending.session) t × OnePerSession t

All-keep :
    (session : Text) (p : Text → PendingUndo → Bool) (t : Table PendingUndo)
    → All (OfOther session) t
    → All (OfOther session) (keep p t)
unfolding keep
All-keep session p [] h = h
All-keep session p ((k, v) ∷ t) (hv, ht) = elim (Bool-cases (p k v)) [
  | inl kept ↦ rw kept (hv, All-keep session p t ht)
  | inr dropped ↦ rw dropped (All-keep session p t ht)
]

keep-OnePerSession :
    (p : Text → PendingUndo → Bool) (t : Table PendingUndo)
    → OnePerSession t
    → OnePerSession (keep p t)
unfolding keep OnePerSession
keep-OnePerSession p [] h = h
keep-OnePerSession p ((k, v) ∷ t) (hv, ht) = elim (Bool-cases (p k v)) [
  | inl kept ↦ rw kept (All-keep v.session p t hv, keep-OnePerSession p t ht)
  | inr dropped ↦ rw dropped (keep-OnePerSession p t ht)
]

remove_undos_of-All :
    (session : Text) (t : Table PendingUndo) → All (OfOther session) (remove_undos_of session t)
unfolding remove_undos_of keep
remove_undos_of-All session [] = tt
remove_undos_of-All session ((k, v) ∷ t) = elim (Bool-cases (equal v.session session)) [
  | inl mine ↦ rw mine (remove_undos_of-All session t)
  | inr other ↦ rw other (other, remove_undos_of-All session t)
]

delete-All :
    (session token : Text) (t : Table PendingUndo)
    → All (OfOther session) t
    → All (OfOther session) (delete t token)
unfolding delete
delete-All session token t = All-keep session (λ k v. not (equal k token)) t

delete-OnePerSession :
    (token : Text) (t : Table PendingUndo) → OnePerSession t → OnePerSession (delete t token)
unfolding delete
delete-OnePerSession token t = keep-OnePerSession (λ k v. not (equal k token)) t

-- What a consumption does: nothing, without a session or a token; otherwise the expired undos are
-- removed, and the undo of the token too if it is the session's.
data Consumed (session token : Text) (now : ℕ) (t : Table PendingUndo)
    : Table PendingUndo × Option PendingUndo → Type 0 where
  nothing : Consumed session token now t (t, none)
  refused : Consumed session token now t (remove_expired_undos now t, none)
  undone :
      (pending : PendingUndo)
      → find (remove_expired_undos now t) token ≡ some pending
      → equal pending.session session ≡ true
      → Consumed session token now t (delete (remove_expired_undos now t) token, some pending)

consume_undo_token-Consumed :
    (session token : Text) (now : ℕ) (t : Table PendingUndo)
    → Consumed session token now t (consume_undo_token session token now t)
unfolding consume_undo_token
consume_undo_token-Consumed session token now t =
    elim (Bool-cases (equal session [] || equal token [])) [
      | inl unnamed ↦ rw unnamed nothing
      | inr named ↦ elim (Option-cases (find (remove_expired_undos now t) token)) [
        | inl missing ↦ rw (named, missing) refused
        | inr (pending, found) ↦ elim (Bool-cases (equal pending.session session)) [
          | inl mine ↦ rw (named, found, mine) (undone pending found mine)
          | inr other ↦ rw (named, found, other) refused
        ]
      ]
    ]

Consumed-OnePerSession :
    (session token : Text) (now : ℕ) (t : Table PendingUndo)
    {r : Table PendingUndo × Option PendingUndo}
    → Consumed session token now t r
    → OnePerSession t
    → OnePerSession r.0
unfolding remove_expired_undos
Consumed-OnePerSession session token now t nothing h = h
Consumed-OnePerSession session token now t refused h = keep-OnePerSession _ t h
Consumed-OnePerSession session token now t (undone pending found mine) h =
    delete-OnePerSession token _ (keep-OnePerSession _ t h)

Step-OnePerSession :
    (ttl : ℕ) {t t' : Table PendingUndo} → Step ttl t t' → OnePerSession t → OnePerSession t'
unfolding clear_pending_undo remove_undos_of store_undo_token put OnePerSession remove_expired_undos
Step-OnePerSession ttl (cleared session t) h = elim (Bool-cases (equal session [])) [
  | inl unnamed ↦ rw unnamed h
  | inr named ↦ rw named (keep-OnePerSession _ t h)
]
Step-OnePerSession ttl (stored token session command now t) h = (
  delete-All session token _ (remove_undos_of-All session (remove_expired_undos now t)),
  delete-OnePerSession token _ (keep-OnePerSession _ _ (keep-OnePerSession _ t h)),
)
Step-OnePerSession ttl (consumed session token now t) h =
    Consumed-OnePerSession session token now t (consume_undo_token-Consumed session token now t) h

-- However the service's operations interleave, a session has at most one pending undo.
pub Reachable-OnePerSession : (ttl : ℕ) {t : Table PendingUndo} → Reachable ttl t → OnePerSession t
unfolding OnePerSession
Reachable-OnePerSession ttl initial = tt
Reachable-OnePerSession ttl (next r s) = Step-OnePerSession ttl s (Reachable-OnePerSession ttl r)

Consumed_lem :
    (session token : Text) (now : ℕ) (t : Table PendingUndo) (pending : PendingUndo)
    {r : Table PendingUndo × Option PendingUndo}
    → Consumed session token now t r
    → r.1 ≡ some pending
    → (pending.session ≡ session) × (now < pending.expires) × (find r.0 token ≡ none)
unfolding remove_expired_undos
Consumed_lem session token now t pending nothing h = absurd (cc)
Consumed_lem session token now t pending refused h = absurd (cc)
Consumed_lem session token now t pending (undone taken found mine) h =
    let same : taken ≡ pending = cc in
    let (key, live, e) = find-keep _ t token taken found in
    (
      rw (sym same) ((equal_iff taken.session session).0 mine),
      rw (sym same) (ltb→lt now taken.expires live),
      find-delete_same _ token,
    )

-- An undo is consumed only by its session, before it expires; afterwards its token finds nothing.
pub consume_undo_token_lem :
    (session token : Text) (now : ℕ) (t : Table PendingUndo) (pending : PendingUndo)
    → (consume_undo_token session token now t).1 ≡ some pending
    → (pending.session ≡ session)
      × (now < pending.expires)
      × (find (consume_undo_token session token now t).0 token ≡ none)
consume_undo_token_lem session token now t pending h =
    Consumed_lem session token now t pending (consume_undo_token-Consumed session token now t) h
