-- ===== src/Intake.antt =====
-- packages/eta-core/src/eta-intake-error.ts: the errors of a submission as text, and the redaction of
-- what is logged.
--
-- `JSON.parse` and `JSON.stringify` are not code of the repository: they are the record `JsonText`. The
-- code parses only texts that start with a brace or a bracket, so that the outcome is an object or a
-- list; and `JSON.stringify` returns a text on every value that the code gives it.
pub mod Redaction
mod Tests
use einvoice.Prelude.{
  ℕ, suc, ◌+◌, Bool, true, false, not, ◌&&◌, ◌||◌, Option, none, some, List, [], ◌∷◌, ◌++◌, Text,
  lit, text_eq, trim, to_lower, Unicode, leb, ◌==◌, if◌then◌else◌, ◌⊎◌, inl, inr,
}
use einvoice.Prelude.Numeral.{digits}
use einvoice.Money.{Numerics}
use einvoice.Json.{
  object_constructor, Json, null, bool, num, str, arr, obj, Items, nil, cons, Fields, end, field,
  get_field,
}
use einvoice.Json.Strings.{js_string}
use einvoice.Receiver.{as_record, starts_with}

-- The i flag of the pattern, which treats only ASCII letters alike here.
abbrev lower_ascii : ℕ → ℕ
lower_ascii c = if leb b'A' c && leb c b'Z' then c + 32 else c

-- What follows a prefix, in any case.
abbrev pub after_prefix : Text → Text → Option Text
after_prefix [] s = some s
after_prefix (p ∷ ps) [] = none
after_prefix (p ∷ ps) (c ∷ s) = if lower_ascii c == p then after_prefix ps s else none

abbrev pub is_match : Option Text → Bool
is_match none = false
is_match (some s) = true

-- A line terminator, which `.` does not match.
abbrev is_line_end : ℕ → Bool
is_line_end c = c == 10 || c == 13 || c == 0x2028 || c == 0x2029

-- `.?` and a text, at the start. The pattern reads UTF-16 units, of which a code point beyond the
-- first plane has two.
abbrev pub after_gap : Text → Text → Bool
after_gap part [] = is_match (after_prefix part [])
after_gap part (c ∷ s) =
    is_match (after_prefix part (c ∷ s))
    || (not (is_line_end c) && (not (leb 0x10000 c) && is_match (after_prefix part s)))

abbrev pub gap_after : Text → Option Text → Bool
gap_after part none = false
gap_after part (some s) = after_gap part s

-- `SECRET_KEY` at the start of a text.
abbrev pub secret_at : Text → Bool
secret_at s =
    is_match (after_prefix (lit "secret") s)
    || is_match (after_prefix (lit "token") s)
    || is_match (after_prefix (lit "password") s)
    || is_match (after_prefix (lit "authorization") s)
    || gap_after (lit "key") (after_prefix (lit "private") s)
    || gap_after (lit "secret") (after_prefix (lit "client") s)
    || gap_after (lit "key") (after_prefix (lit "access") s)

-- `SECRET_KEY.test(key)`
unfoldable pub is_secret_key : Text → Bool
is_secret_key [] = secret_at []
is_secret_key (c ∷ s) = secret_at (c ∷ s) || is_secret_key s

abbrev pub redacted_text : Text
redacted_text = lit "[redacted]"

-- The keys of an object are different, so that each assignment appends a field.
unfoldable mutual
  pub redact_eta_log_json : {N : Type 0} → Json N → Json N
  redact_eta_log_json null = null
  redact_eta_log_json (bool b) = bool b
  redact_eta_log_json object_constructor = object_constructor
  redact_eta_log_json (num x) = num x
  redact_eta_log_json (str s) = str s
  redact_eta_log_json (arr xs) = arr (redact_items xs)
  redact_eta_log_json (obj fs) = obj (redact_fields fs)

  pub redact_items : {N : Type 0} → Items N → Items N
  redact_items nil = nil
  redact_items (cons x xs) = cons (redact_eta_log_json x) (redact_items xs)

  pub redact_fields : {N : Type 0} → Fields N → Fields N
  redact_fields end = end
  redact_fields (field k v fs) =
      field k (if is_secret_key k then str redacted_text else redact_eta_log_json v)
        (redact_fields fs)

pub record JsonText (N : Type 0) : Type 0 where
  pub parse_json : Text → Option (Fields N ⊎ Items N)
  pub stringify : Json N → Text

-- `list.join(separator)`
abbrev pub join_with : Text → List Text → Text
join_with separator [] = []
join_with separator (x ∷ []) = x
join_with separator (x ∷ y ∷ ys) = x ++ (separator ++ join_with separator (y ∷ ys))

-- The separator of the parts: a space, a long dash and a space.
abbrev pub dash : Text
dash = 32 ∷ 0x2014 ∷ 32 ∷ []

abbrev pub refused : Text
refused = lit "Refused at intake"

-- `filter(Boolean)` of the parts.
abbrev pub given_parts : List (Option Text) → List Text
given_parts [] = []
given_parts (none ∷ ps) = given_parts ps
given_parts (some [] ∷ ps) = given_parts ps
given_parts (some (c ∷ s) ∷ ps) = (c ∷ s) ∷ given_parts ps

abbrev pub part_of : Text → Text → Option Text
part_of label [] = none
part_of label (c ∷ s) =
    if text_eq (c ∷ s) (lit "null") || text_eq (c ∷ s) (lit "undefined")
    then none
    else some (label ++ (b'=' ∷ c ∷ s))

module _ ⦃n : Numerics⦄ where
  -- `value != null ? String(value) : null`
  abbrev pub string_of : Option (Json n.Double) → Option Text
  string_of none = none
  string_of (some null) = none
  string_of (some v) = some (js_string v)

  abbrev pub trimmed_part : Text → Option Text → Option Text
  trimmed_part label none = none
  trimmed_part label (some s) = part_of label (trim s)

  unfoldable pub part : Text → Option (Json n.Double) → Option Text
  part label value = trimmed_part label (string_of value)

  -- The four parts of an error or of a detail.
  unfoldable pub error_bits : Fields n.Double → List Text
  unfolding part
  error_bits rec = given_parts (
      part (lit "code") (get_field rec (lit "code"))
      ∷ string_of (get_field rec (lit "message"))
      ∷ part (lit "target") (get_field rec (lit "target"))
      ∷ part (lit "propertyPath") (get_field rec (lit "propertyPath"))
      ∷ [])

  abbrev pub details_label : ℕ → Text
  details_label index = lit "details[" ++ (digits index ++ lit "]")

module _ ⦃n : Numerics⦄ ⦃j : JsonText n.Double⦄ where
  -- A detail with its parts and those of its own details, where there are any.
  abbrev pub detail_text : Json n.Double → ℕ → List Text → Text
  detail_text detail index [] = details_label index ++ (b'=' ∷ j.stringify detail)
  detail_text detail index (b ∷ bits) =
      details_label index ++ (lit ": " ++ join_with dash (b ∷ bits))

  -- `rec.details.map(…).join(' | ')`, where there are any.
  abbrev pub nested_bits : List Text → List Text
  nested_bits [] = []
  nested_bits (t ∷ ts) = join_with (lit " | ") (t ∷ ts) ∷ []

  unfoldable mutual
    pub format_detail : Json n.Double → ℕ → Text
    format_detail (obj fs) index =
        detail_text (obj fs) index (error_bits fs ++ nested_bits (details_texts fs))
    format_detail null index = details_label index ++ (b'=' ∷ lit "null")
    format_detail (bool b) index = details_label index ++ (b'=' ∷ js_string (bool b))
    format_detail object_constructor index =
        details_label index ++ (b'=' ∷ js_string object_constructor)
    format_detail (num x) index = details_label index ++ (b'=' ∷ js_string (num x))
    format_detail (str s) index = details_label index ++ (b'=' ∷ s)
    format_detail (arr xs) index = details_label index ++ (b'=' ∷ js_string (arr xs))

    -- The details of an object, each formatted: those of its field `details`, if that is a list.
    pub details_texts : Fields n.Double → List Text
    details_texts end = []
    details_texts (field k v fs) =
        if text_eq k (lit "details") then list_texts v else details_texts fs

    pub list_texts : Json n.Double → List Text
    list_texts (arr xs) = items_texts 0 xs
    list_texts null = []
    list_texts (bool b) = []
    list_texts object_constructor = []
    list_texts (num x) = []
    list_texts (str s) = []
    list_texts (obj fs) = []

    pub items_texts : ℕ → Items n.Double → List Text
    items_texts i nil = []
    items_texts i (cons x xs) = format_detail x i ∷ items_texts (suc i) xs

  abbrev pub or_stringify : Fields n.Double → List Text → Text
  or_stringify fs [] = j.stringify (obj fs)
  or_stringify fs (b ∷ bits) = join_with dash (b ∷ bits)

  unfoldable pub format_record : Fields n.Double → Text
  format_record fs = or_stringify fs (error_bits fs ++ details_texts fs)

  abbrev pub format_parsed : Text → Option (Fields n.Double ⊎ Items n.Double) → Text
  format_parsed trimmed none = trimmed
  format_parsed trimmed (some (inl fs)) = format_record fs
  format_parsed trimmed (some (inr xs)) = js_string (arr xs)

  -- A text, trimmed.
  abbrev pub format_trimmed : Text → Text
  format_trimmed [] = refused
  format_trimmed (c ∷ s) =
      if c == b'{' || c == b'[' then format_parsed (c ∷ s) (j.parse_json (c ∷ s)) else c ∷ s

  unfoldable pub format_eta_intake_error : Option (Json n.Double) → Text
  unfolding format_record
  format_eta_intake_error none = refused
  format_eta_intake_error (some null) = refused
  format_eta_intake_error (some (str s)) = format_trimmed (trim s)
  format_eta_intake_error (some (obj fs)) = format_record fs
  format_eta_intake_error (some (bool b)) = js_string (bool b)
  format_eta_intake_error (some object_constructor) = js_string object_constructor
  format_eta_intake_error (some (num x)) = js_string (num x)
  format_eta_intake_error (some (arr xs)) = js_string (arr xs)

  -- A message that is a text and not blank, trimmed.
  abbrev pub message_text : Option (Json n.Double) → Text
  message_text (some (str s)) = trim s
  message_text _ = []

  abbrev pub detail_message : Json n.Double → Text
  detail_message (obj fs) = message_text (get_field fs (lit "message"))
  detail_message _ = []

  -- The first of the details' messages.
  unfoldable pub first_message : Items n.Double → Text
  first_message nil = []
  first_message (cons d ds) = elim (detail_message d) [ [] ↦ first_message ds | c ∷ s ↦ c ∷ s ]

  abbrev pub details_of : Option (Json n.Double) → Items n.Double
  details_of (some (arr xs)) = xs
  details_of _ = nil

module _ ⦃u : Unicode⦄ ⦃n : Numerics⦄ ⦃j : JsonText n.Double⦄ where
  abbrev pub or_top : Text → Text → Text
  or_top [] formatted = formatted
  or_top (c ∷ s) formatted =
      if text_eq (to_lower (c ∷ s)) (lit "validation error") then formatted else c ∷ s

  abbrev pub or_message : Text → Text → Text
  or_message [] other = other
  or_message (c ∷ s) other = c ∷ s

  unfoldable pub format_eta_intake_error_summary : Option (Json n.Double) → Text
  unfolding format_eta_intake_error first_message
  format_eta_intake_error_summary (some (obj fs)) =
      or_message (first_message (details_of (get_field fs (lit "details")))) (
        or_top (message_text (get_field fs (lit "message")))
          (format_eta_intake_error (some (obj fs))))
  format_eta_intake_error_summary error = format_eta_intake_error error
