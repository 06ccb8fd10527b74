-- ===== src/Issuer.antt =====
-- packages/eta-core/src/issuer-address.ts and packages/eta-core/src/issuer-identity.ts: who issues a
-- document, from the settings of the company and the overrides of the document.
--
-- An address is the function from its fields to their values; a value that is no string is absent.
pub mod Completeness
mod Tests
use einvoice.Prelude.{
  Bool, true, false, not, ◌&&◌, Option, none, some, List, [], ◌∷◌, Text, lit, text_eq, trim,
  Unicode, to_upper, to_lower, has, if◌then◌else◌,
}

pub data Field : Type 0 where
  branch_id country governate region_city street building_number postal_code : Field
  floor room landmark additional_information : Field

abbrev pub IssuerAddress : Type 0
IssuerAddress = Field → Option Text

abbrev pub required_issuer_address_fields : List Field
required_issuer_address_fields = governate ∷ region_city ∷ street ∷ building_number ∷ []

-- `typeof value === 'string' ? value.trim() : ''`
abbrev pub clean : Option Text → Text
clean none = []
clean (some value) = trim value

abbrev pub non_blank : Text → Option Text
non_blank [] = none
non_blank (c ∷ s) = some (c ∷ s)

unfoldable pub normalize_issuer_address : Option IssuerAddress → IssuerAddress
normalize_issuer_address none field = none
normalize_issuer_address (some address) field = non_blank (clean (address field))

-- `{ ...settings, ...overrides }`
abbrev pub override : Option Text → Option Text → Option Text
override settings none = settings
override settings (some value) = some value

-- `text || last`
abbrev pub or_last : Text → Text → Option Text
or_last [] last = some last
or_last (c ∷ s) last = some (c ∷ s)

-- `if (!value) value = clean(fallback) || last`
abbrev pub defaulted : Option Text → Option Text → Text → Option Text
defaulted (some (c ∷ s)) fallback last = some (c ∷ s)
defaulted _ fallback last = or_last (clean fallback) last

pub record Defaults : Type 0 where
  pub branch_id : Option Text
  pub country : Option Text

abbrev pub resolved_field : Defaults → Field → Option Text → Option Text
resolved_field defaults branch_id value = defaulted value defaults.branch_id (lit "0")
resolved_field defaults country value = defaulted value defaults.country (lit "EG")
resolved_field defaults _ value = value

unfoldable pub resolve_issuer_address :
    Option IssuerAddress → Option IssuerAddress → Defaults → IssuerAddress
unfolding normalize_issuer_address
resolve_issuer_address settings overrides defaults field =
    resolved_field defaults field (
      override (normalize_issuer_address settings field) (normalize_issuer_address overrides field))

-- The field, if it has no value, before the others.
abbrev pub missing_before : Option Text → Field → List Field → List Field
missing_before none f rest = f ∷ rest
missing_before (some value) f rest = rest

-- `filter((field) => !normalized[field])`
abbrev pub without_value : IssuerAddress → List Field → List Field
without_value address [] = []
without_value address (f ∷ fs) = missing_before (address f) f (without_value address fs)

unfoldable pub missing_issuer_address_fields : Option IssuerAddress → List Field
unfolding normalize_issuer_address
missing_issuer_address_fields address =
    without_value (normalize_issuer_address address) required_issuer_address_fields

abbrev pub no_field : List Field → Bool
no_field [] = true
no_field (f ∷ fs) = false

unfoldable pub is_issuer_address_complete : Option IssuerAddress → Bool
is_issuer_address_complete address = no_field (missing_issuer_address_fields address)

abbrev pub is_empty : Text → Bool
is_empty [] = true
is_empty (c ∷ s) = false

module _ ⦃u : Unicode⦄ where
  unfoldable pub is_issuer_name_complete : Option Text → Option Text → Bool
  is_issuer_name_complete name branch_name =
      let n = clean name in
      let b = clean branch_name in
      not (is_empty n) && not (not (is_empty b) && text_eq (to_lower n) (to_lower b))

  unfoldable pub resolve_issuer_name : Option Text → Option Text → Option Text → Text
  unfolding is_issuer_name_complete
  resolve_issuer_name settings document_override branch_name =
      let from_doc = clean document_override in
      if not (is_empty from_doc) && is_issuer_name_complete (some from_doc) branch_name
      then from_doc
      else clean settings

  abbrev eta_issuer_types : List Text
  eta_issuer_types = lit "B" ∷ lit "P" ∷ lit "F" ∷ []

  unfoldable pub resolve_issuer_type : Option Text → Option Text → Text
  resolve_issuer_type settings document_override =
      let from_doc = to_upper (clean document_override) in
      let from_settings = to_upper (clean settings) in
      if has eta_issuer_types from_doc
      then from_doc
      else if has eta_issuer_types from_settings
      then from_settings
      else lit "B"

unfoldable pub resolve_issuer_id : Option Text → Option Text → Text
resolve_issuer_id settings document_override = elim (clean document_override) [
  | [] ↦ clean settings
  | c ∷ s ↦ c ∷ s
]
