-- ===== src/Capture/Relay/Bounded.antt =====
-- What a relay keeps is bounded, and nothing is kept before a marker.
use solomon.Prelude.{◌≤◌, ◌<◌, ◌≡◌, true, false, ◌||◌, [], arith, length, equal}
use solomon.Capture.Relay.{
  Bytes, Terminal, Relay, max_output_bytes, append_locked, feed, serve_connection,
}

-- The relays that connections and the terminal can bring about.
pub data Served (t : Terminal) (marker : Bytes) : Relay → Type 0 where
  start : Served t marker (record { pending = []; output = []; active = false })
  fed : {r : Relay} (value : Bytes) → Served t marker r → Served t marker (feed t marker r value)
  served :
      {r : Relay} (brought : Bytes)
      → Served t marker r
      → Served t marker (serve_connection t r brought).0

-- The output has at most as many bytes as a response may have, fewer bytes wait than a marker has,
-- and without a marker there is no output.
pub record IsBounded (marker : Bytes) (r : Relay) : Type 0 where
  pub output_bound : length r.output ≤ max_output_bytes
  pub pending_bound : length r.pending < length marker
  pub silent : (r.active || equal r.output []) ≡ true

abbrev IsQuiet : Relay → Type 0
IsQuiet r = (length r.output ≤ max_output_bytes) × ((r.active || equal r.output []) ≡ true)

module _ (t : Terminal) where
  append_locked-pending :
      (r : Relay) (value : Bytes) → (append_locked t r value).pending ≡ r.pending
  unfolding append_locked
  append_locked-pending r value = ground arith
