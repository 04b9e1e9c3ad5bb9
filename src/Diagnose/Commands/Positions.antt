-- ===== src/Diagnose/Commands/Positions.antt =====
-- commandPositions and commandStartAt agree, but for keywords and assignments.
use solomon.Prelude.{
  ℕ, zero, suc, ◌+◌, ◌<◌, ◌≡◌, refl, Bool, true, false, not, ◌&&◌, ◌||◌, some, List, [], ◌∷◌, arith,
  ◌==◌, get_elem?, Text, codes, equal,
}
use solomon.Diagnose.Commands.{
  keeps_position, positions_from, command_positions, start_from, command_start_at,
}

abbrev pub contains : ℕ → List ℕ → Bool
contains n [] = false
contains n (m ∷ ms) = m == n || contains n ms

positions_from_above :
    (words : List Text) (index target : ℕ) (expect : Bool)
    → target < index
    → contains target (positions_from index expect words) ≡ false
unfolding positions_from
positions_from_above [] index target expect h = refl
positions_from_above (w ∷ ws) index target expect h = ground (
  arith,
  positions_from_above ws (index + 1) target (not (equal w (codes ")"))),
  positions_from_above ws (index + 1) target expect,
  positions_from_above ws (index + 1) target false,
)

start_from_above :
    (words : List Text) (index target : ℕ) (expect : Bool)
    → target < index
    → start_from target index expect words ≡ false
unfolding start_from
start_from_above [] index target expect h = refl
start_from_above (w ∷ ws) index target expect h = ground (
  arith,
  start_from_above ws (index + 1) target (not (equal w (codes ")"))),
  start_from_above ws (index + 1) target expect,
  start_from_above ws (index + 1) target false,
)

positions_start :
    (words : List Text) (k index target : ℕ) (expect : Bool) (word : Text)
    → target ≡ index + k
    → get_elem? words k ≡ some word
    → contains target (positions_from index expect words)
      ≡ (start_from target index expect words && not (keeps_position word))
unfolding positions_from start_from
positions_start [] k index target expect word e h = cc
positions_start (w ∷ ws) zero index target expect word e h =
    let opens = not (equal w (codes ")")) in
    ground (
      arith,
      start_from_above ws (index + 1) target opens,
      start_from_above ws (index + 1) target expect,
      start_from_above ws (index + 1) target false,
      positions_from_above ws (index + 1) target opens,
      positions_from_above ws (index + 1) target expect,
      positions_from_above ws (index + 1) target false,
    )
positions_start (w ∷ ws) (suc k) index target expect word e h = ground (
  arith,
  positions_start ws k (index + 1) target (not (equal w (codes ")"))) word,
  positions_start ws k (index + 1) target expect word,
  positions_start ws k (index + 1) target false word,
)

-- A word's index is a command position exactly when a command starts at it and the word is neither
-- a shell keyword nor an assignment: the two loops over the words agree.
pub command_positions_iff :
    (words : List Text) (index : ℕ) (word : Text)
    → get_elem? words index ≡ some word
    → contains index (command_positions words)
      ≡ (command_start_at words index && not (keeps_position word))
unfolding command_positions command_start_at
command_positions_iff words index word h =
    positions_start words index 0 index true word (omega arith) h
