-- ===== src/Shell/Actions/Effects.antt =====
-- What the effects of actions have in common, and what the sets of keys and the width bound.
use solomon.Prelude.{
  ℕ, zero, suc, ◌-◌, min, ◌≡◌, ap, inl, inr, Bool, true, false, not, ◌&&◌, ◌||◌, Option, none, some,
  List, [], ◌∷◌, arith, Bool-cases, length, take, length-append, Text, equal, equal_iff, elem,
  width,
}
use solomon.Shell.Actions.{
  ActionState, none_state, hint_state, interrupt_state, rewrite_state, run_unchanged,
  edit_in_buffer, skip_once, other_state, resolve_action, risk_confirmation, truncate_for_width,
  accept_once,
}

abbrev pub is_some : Option Text → Bool
is_some none = false
is_some (some t) = true

-- An action never both submits the line and rewrites the buffer; a repair that a confirmation is
-- required for is not put into the buffer, nor is an empty one; and a refusal is shown and neither
-- submits nor rewrites.
pub resolve_action-risk_confirmation :
    (action : ActionState) (risk suggestion : Text)
    → (((resolve_action action risk suggestion).submit
          && (resolve_action action risk suggestion).rewrite)
        ≡ false)
      × (((resolve_action action risk suggestion).rewrite
            && (is_some (risk_confirmation risk suggestion) || equal suggestion []))
          ≡ false)
      × (((resolve_action action risk suggestion).refused
            && (not (resolve_action action risk suggestion).render
                || (resolve_action action risk suggestion).submit
                || (resolve_action action risk suggestion).rewrite))
          ≡ false)
unfolding resolve_action risk_confirmation
resolve_action-risk_confirmation none_state risk suggestion = ground arith
resolve_action-risk_confirmation hint_state risk suggestion = ground arith
resolve_action-risk_confirmation interrupt_state risk suggestion = ground arith
resolve_action-risk_confirmation rewrite_state risk suggestion = ground arith
resolve_action-risk_confirmation run_unchanged risk suggestion = ground arith
resolve_action-risk_confirmation edit_in_buffer risk suggestion = ground arith
resolve_action-risk_confirmation skip_once risk suggestion = ground arith
resolve_action-risk_confirmation (other_state name) risk suggestion = ground arith

length-take : (n : ℕ) (xs : Text) → length (take n xs) ≡ min n (length xs)
length-take zero xs = omega arith
length-take (suc n) [] = omega arith
length-take (suc n) (x ∷ xs) = omega (arith, length-take n xs)

-- What is shown in a width has as many characters as the text, or as the width if that is less.
pub length-truncate_for_width :
    (value : Text) (width : ℕ) → length (truncate_for_width value width) ≡ min (length value) width
unfolding truncate_for_width
length-truncate_for_width value width =
    let cut = length-take (width - 1) value in
    let marked = length-append (take (width - 1) value) (0x2026 ∷ []) in ground arith

-- A key is accepted exactly when it is not empty and was not accepted before, and then it and no
-- other key has been accepted besides those that were.
pub accept_once-elem :
    (key other : Text) (accepted : List Text)
    → ((accept_once key accepted).1 ≡ (not (equal key []) && not (elem key accepted)))
      × (elem other (accept_once key accepted).0
          ≡ (elem other accepted || equal other key && not (equal key [])))
unfolding accept_once elem
accept_once-elem key other accepted = elim (Bool-cases (equal other key)) [
  | inl same ↦
      let it : other ≡ key = (equal_iff other key).0 same in
      let present : elem other accepted ≡ elem key accepted =
        ap (λ (k : Text). elem k accepted) it in
      ground arith
  | inr differs ↦ ground arith
]
