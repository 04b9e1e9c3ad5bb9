-- ===== src/Capture/Relay/Ends.antt =====
-- The loop of Feed ends, and what it leaves waiting is shorter than a marker.
use solomon.Prelude.{
  ℕ, zero, suc, ◌+◌, ◌-◌, ◌≤◌, ◌<◌, ◌≡◌, refl, inl, inr, true, Option, none, some, List, [], ◌∷◌,
  arith, leb, Bool-cases, Option-cases, length, drop, has_prefix,
}
use solomon.Capture.Relay.{
  Bytes, Terminal, Relay, after_first, split_marker, keep_tail, restarted, feed_loop,
}

pub length-drop {ℓ} : {A : Type ℓ} (n : ℕ) (xs : List A) → length (drop n xs) ≡ length xs - n
length-drop zero xs = omega arith
length-drop (suc n) [] = omega arith
length-drop (suc n) (x ∷ xs) = omega (arith, length-drop n xs)

has_prefix-length : (s p : Bytes) → has_prefix s p ≡ true → length p ≤ length s
unfolding has_prefix
has_prefix-length s [] h = omega arith
has_prefix-length [] (c ∷ p) h = absurd (cc)
has_prefix-length (d ∷ s) (c ∷ p) h =
    let rest = has_prefix-length s p (ground arith) in omega (arith, rest)

after_first-some :
    (c : ℕ) (o : Option (Bytes × Bytes)) (before after : Bytes)
    → after_first c o ≡ some (before, after)
    → (front : Bytes) × (o ≡ some (front, after))
after_first-some c none before after h = absurd (cc)
after_first-some c (some (front, behind)) before after h =
    let same : behind ≡ after = ground arith in (front, rw same refl)

dropped :
    (marker s before after : Bytes)
    → has_prefix s marker ≡ true
    → after ≡ drop (length marker) s
    → length after + length marker ≤ length s
dropped marker s before after here e =
    rw e (omega (arith, length-drop (length marker) s, has_prefix-length s marker here))

-- What is behind a marker is shorter by the marker.
after_marker :
    (marker s before after : Bytes)
    → split_marker marker s ≡ some (before, after)
    → length after + length marker ≤ length s
unfolding split_marker
after_marker marker [] before after h = elim (Bool-cases (has_prefix [] marker)) [
  | inl here ↦
      let e : after ≡ [] = ground arith in rw e (omega (arith, has_prefix-length [] marker here))
  | inr missing ↦ absurd (ground arith)
]
after_marker marker (c ∷ cs) before after h = elim (Bool-cases (has_prefix (c ∷ cs) marker)) [
  | inl here ↦ dropped marker (c ∷ cs) before after here (ground arith)
  | inr later ↦
      let (front, found) =
        after_first-some c (split_marker marker cs) before after (ground arith) in
      let rest = after_marker marker cs front after found in omega (arith, rest)
]

module _ (t : Terminal) (marker : Bytes) (is_marker : 0 < length marker) where
  pub waiting : (r : Relay) → length (keep_tail t marker r).pending < length marker
  unfolding keep_tail
  waiting r = elim (Bool-cases (leb (length r.pending) (length marker - 1))) [
    | inl short ↦ rw short (ground arith)
    | inr long ↦
        rw long (ground (arith, length-drop (length r.pending - (length marker - 1)) r.pending))
  ]

  -- With as much fuel as bytes are pending, and one more, the loop ends; then fewer bytes wait than
  -- a marker has.
  pub feed_loop_total :
      (fuel : ℕ) (r : Relay)
      → length r.pending < fuel
      → (s : Relay) × (feed_loop t marker fuel r ≡ some s) × (length s.pending < length marker)
  unfolding feed_loop
  feed_loop_total zero r less = absurd (omega arith)
  feed_loop_total (suc fuel) r less = elim (Option-cases (split_marker marker r.pending)) [
    | inl none_left ↦ (keep_tail t marker r, rw none_left refl, waiting r)
    | inr ((before, after), found) ↦
        let shorter = after_marker marker r.pending before after found in
        let (s, e, short) =
          feed_loop_total fuel (restarted t marker r before after) (omega (arith, shorter)) in
        (s, rw found e, short)
  ]
