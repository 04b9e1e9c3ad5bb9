-- ===== src/Prelude/Splits.antt =====
-- Parts that are joined with a character that none of them has are found again by a split.
use mathlib.Core.Path.{◌≡◌, refl, ap}
use mathlib.Core.Bool.{Bool, true, false, not, ◌&&◌}
use mathlib.Core.List.{List, [], ◌∷◌, ◌++◌}
use Prim.Native.Nat.{ℕ}
use native.Mathlib.Omega.{arith}
use solomon.Prelude.Tests.{◌==◌}
use solomon.Prelude.Strings.{Text, contains_rune, split_at, join_with}

-- Do none of the parts have the character?
abbrev pub free_of : ℕ → List Text → Bool
free_of sep [] = true
free_of sep (w ∷ ws) = not (contains_rune w sep) && free_of sep ws

split_at-word : (sep : ℕ) (w : Text) → contains_rune w sep ≡ false → split_at sep w ≡ w ∷ []
unfolding contains_rune split_at
split_at-word sep [] h = refl
split_at-word sep (c ∷ w) h =
    let other : (c == sep) ≡ false = ground arith in
    rw (other, split_at-word sep w (ground arith)) refl

split_at-append :
    (sep : ℕ) (w rest : Text)
    → contains_rune w sep ≡ false
    → split_at sep (w ++ sep ∷ rest) ≡ w ∷ split_at sep rest
unfolding contains_rune split_at
split_at-append sep [] rest h = let same : (sep == sep) ≡ true = ground arith in rw same refl
split_at-append sep (c ∷ w) rest h =
    let other : (c == sep) ≡ false = ground arith in
    rw (other, split_at-append sep w rest (ground arith)) refl

pub split_at-join_with :
    (sep : ℕ) (w : Text) (ws : List Text)
    → free_of sep (w ∷ ws) ≡ true
    → split_at sep (join_with (sep ∷ []) (w ∷ ws)) ≡ w ∷ ws
unfolding join_with
split_at-join_with sep w [] h = split_at-word sep w (ground arith)
split_at-join_with sep w (v ∷ ws) h =
    rw (split_at-append sep w (join_with (sep ∷ []) (v ∷ ws)) (ground arith))
      (ap (λ t. w ∷ t) (split_at-join_with sep v ws (ground arith)))
