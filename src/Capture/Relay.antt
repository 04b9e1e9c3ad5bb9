-- ===== src/Capture/Relay.antt =====
-- The relay of internal/capture/relay.go, over bytes: the output of the command behind the last
-- marker is kept, cleaned and bounded. Sockets are not modelled; a connection is the bytes that it
-- brings, and a reader is the list of the chunks that it gives.
pub mod Ends
pub mod Bounded
use solomon.Prelude.{
  ℕ, zero, suc, ◌+◌, ◌-◌, Bool, true, false, not, ◌&&◌, ◌||◌, Option, none, some, List, [], ◌∷◌,
  ◌++◌, ltb, leb, ◌==◌, if◌then◌else◌, length, drop, take, Text, codes, equal, has_prefix,
  is_control, trim_space,
}
use solomon.Redact
use solomon.Redact.{Patterns}
use solomon.Packs.Templates.{is_bidi_control}

abbrev pub Bytes : Type 0
Bytes = List ℕ

abbrev pub max_output_bytes : ℕ
max_output_bytes = 8192

-- The conversions between bytes and characters, and the text without the sequences that
-- terminalControl finds.
pub record Terminal : Type 0 where
  pub runes : Bytes → Text
  pub bytes : Text → Bytes
  pub strip : Bytes → Bytes
  pub patterns : Patterns

pub record Relay : Type 0 where
  pub pending : Bytes
  pub output : Bytes
  pub active : Bool

abbrev pub filter : (ℕ → Bool) → Text → Text
filter p [] = []
filter p (c ∷ cs) = if p c then c ∷ filter p cs else filter p cs

-- The characters that terminalText keeps.
abbrev pub is_kept : ℕ → Bool
is_kept c = c == 10 || c == 9 || c == 13 || not (is_control c || is_bidi_control c)

-- The marker that the relay waits for, behind the shell's token.
unfoldable pub marker_of : Bytes → Bytes
marker_of token = 0x1b ∷ codes "]1337;Solomon=" ++ (token ++ 7 ∷ [])

abbrev pub after_first : ℕ → Option (Bytes × Bytes) → Option (Bytes × Bytes)
after_first d none = none
after_first d (some (before, after)) = some (d ∷ before, after)

-- strings.Index of the marker: what is in front of it, and what is behind it
unfoldable pub split_marker : Bytes → Bytes → Option (Bytes × Bytes)
split_marker marker [] = if has_prefix [] marker then some ([], []) else none
split_marker marker (c ∷ cs) =
    if has_prefix (c ∷ cs) marker
    then some ([], drop (length marker) (c ∷ cs))
    else after_first c (split_marker marker cs)

-- io.LimitReader
unfoldable pub limited : Bytes → Bytes
limited brought = take max_output_bytes brought

module _ (t : Terminal) where
  unfoldable pub terminal_text : Bytes → Bytes
  terminal_text value = t.bytes (filter is_kept (t.runes (t.strip value)))

  abbrev pub redacted : Bytes → Bytes
  redacted value = t.bytes (Redact.text t.patterns (t.runes value)).0

  -- The end of the output, where it is longer than the bound.
  abbrev pub last_bytes : Bytes → Bytes
  last_bytes s = if ltb max_output_bytes (length s) then drop (length s - max_output_bytes) s else s

  -- appendLocked
  unfoldable pub append_locked : Relay → Bytes → Relay
  unfolding terminal_text
  append_locked r value =
      if not r.active || equal value []
      then r
      else record r { output = last_bytes (r.output ++ redacted (terminal_text value)) }

  module _ (marker : Bytes) where
    -- What is left where the marker is not found: the end that may be the start of a marker waits.
    unfoldable pub keep_tail : Relay → Relay
    unfolding append_locked
    keep_tail r =
        let keep = length marker - 1 in
        let front = take (length r.pending - keep) r.pending in
        let back = drop (length r.pending - keep) r.pending in
        if leb (length r.pending) keep then r else record (append_locked r front) { pending = back }

    abbrev pub restarted : Relay → Bytes → Bytes → Relay
    restarted r before after = record (append_locked r before) {
      output = [];
      active = true;
      pending = after;
    }

    abbrev pub feed_round : (Relay → Option Relay) → Relay → Option (Bytes × Bytes) → Option Relay
    feed_round again r none = some (keep_tail r)
    feed_round again r (some (before, after)) = again (restarted r before after)

    -- The loop of Feed, for as many rounds as the fuel; `none` if it runs out.
    unfoldable pub feed_loop : ℕ → Relay → Option Relay
    unfolding keep_tail split_marker
    feed_loop zero r = none
    feed_loop (suc fuel) r = feed_round (feed_loop fuel) r (split_marker marker r.pending)

    abbrev pub or_same : Relay → Option Relay → Relay
    or_same r none = r
    or_same r (some s) = s

    -- Every round takes a marker away, which is not empty.
    unfoldable pub feed : Relay → Bytes → Relay
    unfolding feed_loop
    feed r value =
        let fed = record r { pending = r.pending ++ value } in
        or_same fed (feed_loop (length fed.pending + 1) fed)

    -- FeedReader, up to the end of what the reader gives
    unfoldable pub feed_reader : Relay → List Bytes → Relay
    unfolding feed
    feed_reader r [] = r
    feed_reader r (chunk ∷ chunks) = feed_reader (feed r chunk) chunks

  abbrev pub reset : Relay → Relay
  reset r = record { pending = []; output = []; active = false }

  abbrev pub trim_prefix : Bytes → Bytes → Bytes
  trim_prefix s prefix = if has_prefix s prefix then drop (length prefix) s else s

  abbrev pub flushed : Relay → Relay
  flushed r =
      if r.active && not (equal r.pending [])
      then record (append_locked r r.pending) { pending = [] }
      else r

  -- strings.TrimSpace of the characters
  abbrev pub trimmed : Bytes → Bytes
  trimmed s = t.bytes (trim_space (t.runes s))

  unfoldable pub snapshot : Relay → Bytes → Relay × Bytes
  unfolding append_locked
  snapshot r command =
      let after = flushed r in
      let output = trimmed after.output in
      (after, (if equal command [] then output else trimmed (trim_prefix output command)))

  -- serveConnection: what a connection that brings these bytes is answered, if it is
  unfoldable pub serve_connection : Relay → Bytes → Relay × Option Bytes
  unfolding snapshot limited
  serve_connection r brought =
      let request = limited brought in
      let (after, answer) = snapshot r (trim_prefix request (codes "read\n")) in
      if equal request (codes "reset\n")
      then (reset r, none)
      else if not (has_prefix request (codes "read\n"))
      then (r, none)
      else (after, some answer)

  -- The check of request on what it has read, of which it reads one byte more than the bound.
  abbrev pub check_response : Bytes → Option Bytes
  check_response answer =
      let read = take (max_output_bytes + 1) answer in
      if ltb max_output_bytes (length read) then none else some read
