-- ===== src/Diagnose/Protocol/Fields.antt =====
-- The fields of a record are found again in its line.
use solomon.Prelude.{
  ℕ, zero, suc, ◌+◌, ◌≡◌, refl, inl, inr, true, false, [], ◌∷◌, ◌++◌, arith, ltb, Bool-cases, ok,
  Text, codes, contains_rune, split_at, split_at-join_with, join_with, ◌%◌, ◌/◌,
}
use solomon.Diagnose.Risk.{Risk, safe, unknown, high, other}
use solomon.Diagnose.Rank.{Confidence}
use solomon.Diagnose.Decision.{
  Action, no_action, hint_action, interrupt_action, rewrite_action, Decision, risk_text, valid_risk,
  itoa, digits_onto, hundredths, format_confidence,
}
use solomon.Diagnose.Protocol.{action_text, validate_protocol, record_fields, record_of}

abbrev tab : ℕ
tab = b'\t'

digits_onto-tab :
    (fuel n : ℕ) (out : Text)
    → contains_rune out tab ≡ false
    → contains_rune (digits_onto fuel n out) tab ≡ false
unfolding digits_onto contains_rune
digits_onto-tab zero n out h = h
digits_onto-tab (suc fuel) n out h = elim (Bool-cases (ltb n 10)) [
  | inl last ↦ rw last (ground arith)
  | inr more ↦ rw more (digits_onto-tab fuel (n / 10) ((b'0' + n % 10) ∷ out) (ground arith))
]

itoa-tab : (n : ℕ) → contains_rune (itoa n) tab ≡ false
unfolding itoa contains_rune
itoa-tab n = digits_onto-tab (suc n) n [] refl

append-tab :
    (a b : Text)
    → contains_rune a tab ≡ false
    → contains_rune b tab ≡ false
    → contains_rune (a ++ b) tab ≡ false
unfolding contains_rune
append-tab [] b h k = k
append-tab (c ∷ a) b h k = let rest = append-tab a b (ground arith) k in ground arith

format_confidence-tab : (c : Confidence) → contains_rune (format_confidence c) tab ≡ false
unfolding format_confidence contains_rune
format_confidence-tab c =
    append-tab (itoa (hundredths c / 100))
      (b'.' ∷ (b'0' + hundredths c / 10 % 10) ∷ (b'0' + hundredths c % 10) ∷ [])
      (itoa-tab (hundredths c / 100)) (ground arith)

risk_text-tab : (r : Risk) → valid_risk r ≡ true → contains_rune (risk_text r) tab ≡ false
unfolding contains_rune
risk_text-tab safe h = refl
risk_text-tab unknown h = refl
risk_text-tab high h = refl
risk_text-tab (other value) h = absurd (cc)

action_text-tab : (a : Action) → contains_rune (action_text a) tab ≡ false
unfolding contains_rune
action_text-tab no_action = refl
action_text-tab hint_action = refl
action_text-tab interrupt_action = refl
action_text-tab rewrite_action = refl

-- The record of a decision is a line with a newline at its end; a split at tabs gives back its
-- seven fields, if no text has a tab when it is encoded, whatever the decision's texts are.
pub record_of-split_at :
    (encode : Text → Text) (d : Decision) (line : Text)
    → ((t : Text) → contains_rune (encode t) b'\t' ≡ false)
    → record_of encode d ≡ ok line
    → (body : Text) × (line ≡ body ++ codes "\n") × (split_at b'\t' body ≡ record_fields encode d)
unfolding record_of validate_protocol
record_of-split_at encode d line free h =
    let risk : valid_risk d.risk ≡ true = ground arith in
    let same : line ≡ join_with (codes "\t") (record_fields encode d) ++ codes "\n" =
      ground arith in
    (
      join_with (codes "\t") (record_fields encode d),
      same,
      split_at-join_with b'\t' (itoa d.version) _ (
          rw
            (
              itoa-tab d.version,
              action_text-tab d.action,
              risk_text-tab d.risk risk,
              format_confidence-tab d.confidence,
              free d.cause,
              free d.consequence,
              free d.suggestion,
            )
            refl),
    )
