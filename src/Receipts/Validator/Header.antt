-- ===== src/Receipts/Validator/Header.antt =====
-- The type, the header and the seller in `validateReceipt` of
-- packages/eta-core/src/receipts/receipt-validator.ts.
use einvoice.Prelude.{
  ℕ, ◌+◌, Bool, true, false, not, ◌||◌, Option, none, some, List, [], ◌∷◌, ◌++◌, Text, lit, text_eq,
  to_upper, Unicode, leb, if◌then◌else◌,
}
use einvoice.Money.{Numerics}
use einvoice.Json.{Json, str, Fields, get_field}
use einvoice.Receiver.{as_record}
use einvoice.Issuer.{Field, IssuerAddress, missing_issuer_address_fields}
use einvoice.Validation.{ValidationIssue, unless}
use einvoice.Validation.Totals.{string_or_empty}
use einvoice.Validation.Document.{is_date_time}
use einvoice.Receipts.Types.{
  receipt_type_version, as_receipt_type, ReceiptType, return_sale, service_receipt, sale,
}
use einvoice.Receipts.Uuid.{is_receipt_uuid}
use einvoice.Receipts.Builder.{field_name, is_blank_text}
use einvoice.Receipts.Validator.{
  receipt_issue, required_issue, trimmed_text, blank_issues, is_zero_number, assert_receipt_number,
}

-- `text.length`: a code point beyond the first plane takes two units.
abbrev pub utf16_length : Text → ℕ
utf16_length [] = 0
utf16_length (c ∷ s) = (if leb 0x10000 c then 2 else 1) + utf16_length s

abbrev pub is_some_type : Option ReceiptType → Bool
is_some_type none = false
is_some_type (some t) = true

unfoldable pub type_issues : Text → Text → List ValidationIssue
type_issues type version =
    unless (is_some_type (as_receipt_type type)) (
      receipt_issue (lit "RECEIPT_TYPE_INVALID") (lit "documentType.receiptType")
        (lit "receipts.validation.receiptType") ((lit "value", type) ∷ []))
    ++ unless (text_eq version receipt_type_version) (
        receipt_issue (lit "RECEIPT_VERSION_MISMATCH") (lit "documentType.typeVersion")
          (lit "receipts.validation.typeVersion")
          ((lit "expected", receipt_type_version) ∷ (lit "got", version) ∷ []))

unfoldable pub number_length_issues : Text → List ValidationIssue
number_length_issues [] = required_issue (lit "header.receiptNumber") ∷ []
number_length_issues (c ∷ s) = unless (leb (utf16_length (c ∷ s)) 50) (
    receipt_issue (lit "RECEIPT_NUMBER_LENGTH") (lit "header.receiptNumber")
      (lit "receipts.validation.receiptNumberLength") [])

abbrev pub seller_paths : List Text
seller_paths =
    lit "rin"
    ∷ lit "companyTradeName"
    ∷ lit "branchCode"
    ∷ lit "deviceSerialNumber"
    ∷ lit "activityCode"
    ∷ []

abbrev pub missing_issues : List Field → List ValidationIssue
missing_issues [] = []
missing_issues (f ∷ fs) =
    receipt_issue (lit "SELLER_ADDRESS_INCOMPLETE") (lit "seller.branchAddress." ++ field_name f)
      (lit "receipts.validation.sellerAddress") ((lit "field", field_name f) ∷ [])
    ∷ missing_issues fs

module _ {N : Type 0} where
  abbrev pub is_string : Option (Json N) → Bool
  is_string (some (str s)) = true
  is_string _ = false

  -- Empty, or 64 hexadecimal digits.
  abbrev pub is_uuid_field : Option (Json N) → Bool
  is_uuid_field (some (str s)) = is_blank_text s || is_receipt_uuid s
  is_uuid_field _ = false

  abbrev pub string_field : Option (Json N) → Option Text
  string_field (some (str s)) = some s
  string_field _ = none

  abbrev pub address_of_object : Fields N → IssuerAddress
  address_of_object fs f = string_field (get_field fs (field_name f))

  -- What a return and a service receipt have to name.
  unfoldable pub type_field_issues : Fields N → Option ReceiptType → List ValidationIssue
  type_field_issues header (some return_sale) =
      unless (not (is_blank_text (trimmed_text (get_field header (lit "referenceUUID"))))) (
        receipt_issue (lit "RETURN_REFERENCE_REQUIRED") (lit "header.referenceUUID")
          (lit "receipts.validation.referenceUuid") [])
  type_field_issues header (some service_receipt) =
      unless (not (is_blank_text (trimmed_text (get_field header (lit "orderdeliveryMode"))))) (
        receipt_issue (lit "ORDER_DELIVERY_MODE_REQUIRED") (lit "header.orderdeliveryMode")
          (lit "receipts.validation.orderDeliveryMode") [])
  type_field_issues header (some sale) = []
  type_field_issues header none = []

  unfoldable pub seller_address_issues : Option (Fields N) → List ValidationIssue
  seller_address_issues none = required_issue (lit "seller.branchAddress") ∷ []
  seller_address_issues (some address) =
      missing_issues (missing_issuer_address_fields (some (address_of_object address)))

  unfoldable pub seller_issues : Fields N → List ValidationIssue
  seller_issues seller =
      blank_issues seller (lit "seller.") seller_paths
      ++ seller_address_issues (as_record (get_field seller (lit "branchAddress")))

module _ ⦃u : Unicode⦄ ⦃n : Numerics⦄ where
  unfoldable pub currency_issues : Fields n.Double → List ValidationIssue
  currency_issues header =
      let rate = get_field header (lit "exchangeRate") in
      blank_issues header (lit "header.") (lit "currency" ∷ [])
      ++ (assert_receipt_number (lit "header.exchangeRate") rate
          ++ unless
              (not (
                  text_eq (to_upper (trimmed_text (get_field header (lit "currency")))) (lit "EGP"))
                || is_zero_number rate)
              (receipt_issue (lit "EGP_EXCHANGE_RATE") (lit "header.exchangeRate")
                (lit "receipts.validation.egpExchangeRate") []))

  unfoldable pub header_issues : Option ReceiptType → Fields n.Double → List ValidationIssue
  header_issues type header =
      let date = get_field header (lit "dateTimeIssued") in
      unless (is_date_time date) (
        receipt_issue (lit "ETA_DATETIME_PATTERN") (lit "header.dateTimeIssued")
          (lit "receipts.validation.dateTimeIssuedPattern")
          ((lit "value", string_or_empty date) ∷ (lit "pattern", lit "yyyy-MM-ddTHH:mm:ssZ") ∷ []))
      ++ (number_length_issues (trimmed_text (get_field header (lit "receiptNumber")))
          ++ (unless (is_uuid_field (get_field header (lit "uuid"))) (
                receipt_issue (lit "RECEIPT_UUID") (lit "header.uuid")
                  (lit "receipts.validation.uuid") [])
              ++ (unless (is_string (get_field header (lit "previousUUID")))
                    (required_issue (lit "header.previousUUID"))
                  ++ (type_field_issues header type ++ currency_issues header))))
