-- ===== src/Prelude/Results.antt =====
-- A Go pair (value, error): either a value or an error of the model's own type.
use mathlib.Core.Path.{◌≡◌, refl}
use mathlib.Core.Bool.{Bool, true, false}

pub data Result {ℓ} (E : Type 0) (V : Type ℓ) : Type ℓ where
  err : E → Result E V
  ok : V → Result E V

module _ {κ} {E : Type 0} {W : Type κ} where
  infixl 5 ◌>>=◌ ◌>>◌
  -- `if err != nil { return err }`, and what follows it
  abbrev pub ◌>>=◌ {ℓ} : {V : Type ℓ} → Result E V → (V → Result E W) → Result E W
  err failure >>= next = err failure
  ok value >>= next = next value

  abbrev pub ◌>>◌ : Result E (Unit {0}) → Result E W → Result E W
  first >> second = first >>= λ _. second

  pub >>=-eq-ok {ℓ} :
      {V : Type ℓ} (first : Result E V) (next : V → Result E W) {w : W}
      → (first >>= next) ≡ ok w
      → (value : V) × (first ≡ ok value) × (next value ≡ ok w)
  >>=-eq-ok (err failure) next h = cc
  >>=-eq-ok (ok value) next h = (value, refl, h)

-- The error, where the test fails.
abbrev pub guard : {E : Type 0} → Bool → E → Result E (Unit {0})
guard test failure = elim test [ true ↦ ok tt | false ↦ err failure ]
