-- ===== src/InternalId.antt =====
-- packages/eta-core/src/internal-id.ts: the internal ids that ETA takes, and the check of a
-- tenant's numbering scheme.
--
-- The numbers of a scheme are whole, as in their database columns; the texts of the issues are
-- left out, except for the id that they show.
pub mod Schemes
pub mod Injective
use einvoice.Prelude.{
  ℕ, ◌+◌, ◌-◌, ◌^◌, Bool, true, false, not, ◌&&◌, ◌||◌, Option, none, some, List, [], ◌∷◌, ◌++◌, ℤ,
  pos, negsuc, pos_part, Text, length, all, replicate, ltb, leb, ◌==◌, if◌then◌else◌, trim,
}
use einvoice.Prelude.Numeral.{is_digit, digits}

abbrev eta_internal_id_max_length : ℕ
eta_internal_id_max_length = 50

-- `[A-Za-z0-9]`
abbrev pub is_alphanumeric : ℕ → Bool
is_alphanumeric c = (leb b'A' c && leb c b'Z') || (leb b'a' c && leb c b'z') || is_digit c

-- `[A-Za-z0-9._-]`
abbrev pub is_id_char : ℕ → Bool
is_id_char c = is_alphanumeric c || c == b'.' || c == b'_' || c == b'-'

-- `value.length`: a code point above U+FFFF counts twice.
unfoldable pub utf16_length : Text → ℕ
utf16_length [] = 0
utf16_length (c ∷ s) = (if ltb c 0x10000 then 1 else 2) + utf16_length s

-- ETA_INTERNAL_ID_PATTERN
unfoldable pub matches_internal_id : Text → Bool
matches_internal_id [] = false
matches_internal_id (c ∷ s) = is_alphanumeric c && leb (length s) 49 && all is_id_char s

abbrev pub is_empty : Text → Bool
is_empty [] = true
is_empty (c ∷ s) = false

unfoldable pub is_valid_eta_internal_id : Option Text → Bool
unfolding matches_internal_id utf16_length trim
is_valid_eta_internal_id none = false
is_valid_eta_internal_id (some value) =
    let v = trim value in
    if is_empty v || ltb eta_internal_id_max_length (utf16_length v)
    then false
    else matches_internal_id v

-- `body.padStart(width, '0')`
abbrev pub pad_start : ℕ → Text → Text
pad_start width s = replicate (width - length s) b'0' ++ s

-- `Math.max(1, Math.min(12, padWidth))`
abbrev pub clamp_width : ℕ → ℕ
clamp_width w = if ltb w 1 then 1 else if ltb 12 w then 12 else w

unfoldable pub format_internal_id : Text → ℤ → ℤ → Text
unfolding digits
format_internal_id prefix sequence_number pad_width =
    prefix ++ pad_start (clamp_width (pos_part pad_width)) (digits (pos_part sequence_number))

pub data Charset : Type 0 where
  numeric alphanumeric : Charset

pub record InternalIdSchemeInput : Type 0 where
  pub prefix : Text
  pub pad_width : ℤ
  pub starting_number : ℤ
  pub charset : Charset

pub data InternalIdSchemeIssue : Type 0 where
  pad_width_invalid starting_number_invalid prefix_too_long prefix_charset prefix_start :
      InternalIdSchemeIssue
  scheme_produces_invalid scheme_too_long : Text → InternalIdSchemeIssue

-- `if (test) issues.push(issue)`, before the checks that follow.
abbrev pub issue_if :
    Bool → InternalIdSchemeIssue → List InternalIdSchemeIssue → List InternalIdSchemeIssue
issue_if true issue rest = issue ∷ rest
issue_if false issue rest = rest

abbrev pub is_negative : ℤ → Bool
is_negative (pos n) = false
is_negative (negsuc n) = true

abbrev pub starts_alphanumeric : Text → Bool
starts_alphanumeric [] = false
starts_alphanumeric (c ∷ s) = is_alphanumeric c

-- `startingNumber || 1`
abbrev or_one : ℤ → ℤ
or_one (pos n) = if n == 0 then pos 1 else pos n
or_one (negsuc n) = negsuc n

-- The checks before the first return.
unfoldable pub field_issues : InternalIdSchemeInput → List InternalIdSchemeIssue
unfolding utf16_length
field_issues input =
    issue_if (ltb (pos_part input.pad_width) 1 || ltb 12 (pos_part input.pad_width))
      pad_width_invalid
      (issue_if (is_negative input.starting_number) starting_number_invalid (
        issue_if (ltb 30 (utf16_length input.prefix)) prefix_too_long (
          issue_if (not (is_empty input.prefix) && not (all is_id_char input.prefix)) prefix_charset
            (issue_if (not (is_empty input.prefix) && not (starts_alphanumeric input.prefix))
              prefix_start []))))

unfoldable pub sample_issues : InternalIdSchemeInput → List InternalIdSchemeIssue
unfolding format_internal_id is_valid_eta_internal_id
sample_issues input =
    let sample = format_internal_id input.prefix (or_one input.starting_number) input.pad_width in
    let at_ceiling =
      format_internal_id input.prefix (pos (10 ^ pos_part input.pad_width - 1)) input.pad_width in
    issue_if (not (is_valid_eta_internal_id (some sample))) (scheme_produces_invalid sample)
      (issue_if (not (is_valid_eta_internal_id (some at_ceiling))) (scheme_too_long at_ceiling) [])

-- `if (issues.length) return issues`
abbrev pub unless_any :
    List InternalIdSchemeIssue → List InternalIdSchemeIssue → List InternalIdSchemeIssue
unless_any [] later = later
unless_any (i ∷ is) later = i ∷ is

unfoldable pub validate_internal_id_scheme : InternalIdSchemeInput → List InternalIdSchemeIssue
unfolding field_issues sample_issues
validate_internal_id_scheme input = unless_any (field_issues input) (sample_issues input)

-- ETA_DOCUMENT_UUID_PATTERN and ETA_DOCUMENT_LONG_ID_PATTERN
abbrev pub is_token_of : ℕ → Text → Bool
is_token_of k v = length v == k && all is_alphanumeric v

unfoldable pub is_plausible_eta_document_reference : Option Text → Bool
unfolding trim
is_plausible_eta_document_reference none = false
is_plausible_eta_document_reference (some value) =
    let v = trim value in
    not (is_empty v)
    && (is_token_of 26 v
        || is_token_of 42 v
        || (leb 8 (length v) && leb (length v) 50 && all is_id_char v))
