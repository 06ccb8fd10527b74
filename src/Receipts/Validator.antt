-- ===== src/Receipts/Validator.antt =====
-- packages/eta-core/src/receipts/receipt-validator.ts: the checks of a receipt.
pub mod Header
pub mod Lines
pub mod Recomputed
pub mod Built
mod Tests
use einvoice.Prelude.{
  ℕ, suc, ◌+◌, Bool, true, false, not, ◌&&◌, ◌||◌, Option, none, some, List, [], ◌∷◌, ◌++◌, Text,
  lit, text_eq, trim, to_upper, Unicode, ok, ◌>>=◌, traverse, ltb, leb, if◌then◌else◌,
}
use einvoice.Prelude.Numeral.{digits}
use einvoice.Money.{Numerics, Calc, format_money}
use einvoice.Json.{
  Json, null, bool, num, str, arr, obj, Items, nil, cons, Fields, end, field, get_field,
}
use einvoice.Receiver.{as_record, record_or_empty}
use einvoice.Formats.{is_valid_eta_date_time_issued}
use einvoice.Issuer.{Field, IssuerAddress, missing_issuer_address_fields}
use einvoice.Validation.{
  Severity, ValidationIssue, error, warning, unless, indexed, is_json_number, type_of,
}
use einvoice.Validation.Totals.{string_or_empty}
use einvoice.Validation.Document.{is_date_time}
use einvoice.Receipts.Types.{
  receipt_type_version, max_receipt_lines, as_receipt_type, is_receipt_buyer_type,
  is_receipt_payment_method, buyer_identity_required, ReceiptType, return_sale, service_receipt,
  sale,
}
use einvoice.Receipts.Uuid.{is_receipt_uuid}
use einvoice.Receipts.Totals.{
  ReceiptDocumentTotals, calculate_receipt_line, calculate_receipt_document_totals,
}
use einvoice.Receipts.Builder.{ReceiptBuildInput, field_name, is_blank_text}

-- `issue(code, path, messageKey, params)`
abbrev pub receipt_issue : Text → Text → Text → List (Text × Text) → ValidationIssue
receipt_issue code path key params = record {
  code = code;
  path = path;
  severity = error;
  message_key = key;
  params = params;
}

abbrev pub required_issue : Text → ValidationIssue
required_issue path =
    receipt_issue (lit "REQUIRED_FIELD") path (lit "receipts.validation.required")
      ((lit "path", path) ∷ [])

-- `text.length`: a code point beyond the first plane takes two units.
abbrev pub utf16_length : Text → ℕ
utf16_length [] = 0
utf16_length (c ∷ s) = (if leb 0x10000 c then 2 else 1) + utf16_length s

abbrev pub buyer_id_threshold : ℕ
buyer_id_threshold = 150000

module _ {N : Type 0} where
  -- `str(value)`
  abbrev pub trimmed_text : Option (Json N) → Text
  trimmed_text (some (str s)) = trim s
  trimmed_text _ = []

  abbrev pub object_or_empty : Option (Json N) → Fields N
  object_or_empty v = record_or_empty (as_record v)

  -- `REQUIRED_FIELD` for each of the fields that is blank, under a prefix.
  unfoldable pub blank_issues : Fields N → Text → List Text → List ValidationIssue
  blank_issues fs before [] = []
  blank_issues fs before (p ∷ ps) =
      unless (not (is_blank_text (trimmed_text (get_field fs p)))) (required_issue (before ++ p))
      ++ blank_issues fs before ps

module _ ⦃n : Numerics⦄ where
  -- `num(value) === 0`
  abbrev pub is_zero_number : Option (Json n.Double) → Bool
  is_zero_number (some (num x)) = n.is_finite x && n.is_zero x
  is_zero_number _ = false

  unfoldable pub assert_receipt_number : Text → Option (Json n.Double) → List ValidationIssue
  assert_receipt_number path value = unless (is_json_number value) (
      receipt_issue (lit "ETA_NUMBER_EXPECTED") path (lit "receipts.validation.numberExpected")
        ((lit "path", path) ∷ (lit "got", type_of value) ∷ []))

  unfoldable pub receipt_number_issues : Fields n.Double → Text → List Text → List ValidationIssue
  receipt_number_issues fs before [] = []
  receipt_number_issues fs before (p ∷ ps) =
      assert_receipt_number (before ++ p) (get_field fs p) ++ receipt_number_issues fs before ps
