-- ===== src/Packs/Templates.antt =====
-- The templates of internal/packs/packs.go, which refer to the captures of a rule's pattern.
pub mod Captures
use solomon.Prelude.{
  ℕ, ◌+◌, ◌-◌, ◌*◌, Bool, not, ◌&&◌, ◌||◌, [], ◌∷◌, ltb, leb, ◌==◌, if◌then◌else◌, Result, ok, err,
  ◌>>◌, guard, any, Text, codes, equal, contains_any, is_control, byte_len, ◌%◌, ◌/◌,
}

pub data TemplateError : Type 0 where
  ends_with_dollar numeric_only unavailable_capture exceeds_limits : TemplateError
  control_characters rationale_required : TemplateError

-- Where the loop stands: outside of a reference, behind a `$`, or in a reference whose digits so
-- far are the number.
pub data Reading : Type 0 where
  outside dollar : Reading
  reference : ℕ → Reading

abbrev pub is_digit : ℕ → Bool
is_digit c = leb b'0' c && leb c b'9'

-- capture > captures/10 || capture == captures/10 && digit > captures%10
abbrev pub exceeds : ℕ → ℕ → ℕ → Bool
exceeds captures capture digit =
    ltb (captures / 10) capture || capture == captures / 10 && ltb (captures % 10) digit

unfoldable pub scan : ℕ → Reading → Text → Result TemplateError (Unit {0})
scan captures outside [] = ok tt
scan captures outside (c ∷ cs) = scan captures (if c == b'$' then dollar else outside) cs
scan captures dollar [] = err ends_with_dollar
scan captures dollar (c ∷ cs) =
    let escaped = scan captures outside cs in
    let started = scan captures (reference (c - b'0')) cs in
    if c == b'$'
    then escaped
    else if ltb c b'1' || ltb b'9' c
    then err numeric_only
    else if exceeds captures 0 (c - b'0')
    then err unavailable_capture
    else started
scan captures (reference capture) [] = ok tt
scan captures (reference capture) (c ∷ cs) =
    let more = scan captures (reference (capture * 10 + (c - b'0'))) cs in
    let ended = scan captures (if c == b'$' then dollar else outside) cs in
    if not (is_digit c)
    then ended
    else if exceeds captures capture (c - b'0')
    then err unavailable_capture
    else more

unfoldable pub validate_transformation_template : Text → ℕ → Result TemplateError (Unit {0})
unfolding scan
validate_transformation_template template captures = scan captures outside template

abbrev has_control : Text → Bool
has_control = any is_control

unfoldable pub validate_explanation_template : Text → ℕ → Result TemplateError (Unit {0})
validate_explanation_template template captures = do
  guard (leb (byte_len template) 512) exceeds_limits
  guard (not (has_control template)) control_characters
  validate_transformation_template template captures

-- validateRiskMetadata, of a rule with this rationale
unfoldable pub validate_risk_metadata : Text → Result TemplateError (Unit {0})
validate_risk_metadata rationale = do
  guard (not (equal rationale [])) rationale_required
  validate_explanation_template rationale 0

-- unicode.Bidi_Control
abbrev pub is_bidi_control : ℕ → Bool
is_bidi_control c =
    c == 0x61c
    || leb 0x200e c && leb c 0x200f
    || leb 0x202a c && leb c 0x202e
    || leb 0x2066 c && leb c 0x2069

unfoldable pub safe_transformation_template : Text → Bool
safe_transformation_template value =
    not (contains_any value (codes "'\"\\`;&|<>()*?[]{}\r\n"))
    && not (any (λ c. is_control c || is_bidi_control c) value)
