-- ===== src/Validation/Document.antt =====
-- `validateDocument` of packages/eta-core/src/local-validator.ts.
use einvoice.Prelude.{
  ℕ, suc, Bool, true, false, not, ◌&&◌, ◌||◌, Option, none, some, List, [], ◌∷◌, ◌++◌, Text, lit,
  text_eq, Unicode, ok, ◌>>=◌, if◌then◌else◌, to_upper,
}
use einvoice.Money.{Numerics, Calc}
use einvoice.Json.{
  object_constructor, Json, null, bool, num, str, arr, obj, Items, nil, cons, Fields, get_field,
  has_key,
}
use einvoice.Receiver.{
  EtaReceiverType, foreign, as_eta_receiver_type, as_record, clean_string, coalesce, starts_with,
}
use einvoice.Formats.{is_valid_eta_date_time_issued}
use einvoice.Totals.Line.{LineInput}
use einvoice.Builder.{DocumentKind, kind_name, kind_to_eta_type}
use einvoice.Validation.{
  ValidationIssue, error, plain_error, unless, is_empty_text, has_path, indexed, assert_json_number,
}
use einvoice.Validation.Totals.{string_or_empty, check_eta_totals}
use einvoice.Validation.Items.{lines_issues, tax_free_issues}

pub record TypeVersionSchema : Type 0 where
  pub document_type_version : Text
  pub required_paths : Option (List Text)

pub record ValidatorRefs : Type 0 where
  pub branch_ok : Bool
  pub currency_ok : Bool
  pub item_codes_ok : Bool
  pub original_document_ok : Option Bool
  pub exchange_rate_ok : Option Bool

pub record Validation (N : Type 0) : Type 0 where
  pub kind : DocumentKind
  pub document : Fields N
  pub type_version_schema : TypeVersionSchema
  pub refs : ValidatorRefs
  pub lines : Option (List LineInput)

-- `text.includes(part)`
abbrev pub includes : Text → Text → Bool
includes part [] = starts_with part []
includes part (c ∷ s) = starts_with part (c ∷ s) || includes part s

-- `value === false`
abbrev pub is_false : Option Bool → Bool
is_false (some false) = true
is_false _ = false

abbrev pub decimal_doc_paths : List Text
decimal_doc_paths =
    lit "totalSalesAmount"
    ∷ lit "totalDiscountAmount"
    ∷ lit "netAmount"
    ∷ lit "totalAmount"
    ∷ lit "extraDiscountAmount"
    ∷ lit "totalItemsDiscountAmount"
    ∷ []

abbrev pub line_paths : List Text
line_paths =
    lit "quantity"
    ∷ lit "salesTotal"
    ∷ lit "total"
    ∷ lit "valueDifference"
    ∷ lit "totalTaxableFees"
    ∷ lit "netTotal"
    ∷ lit "itemsDiscount"
    ∷ []

abbrev pub default_required_paths : List Text
default_required_paths = lit "issuer" ∷ lit "receiver" ∷ lit "invoiceLines" ∷ lit "internalID" ∷ []

abbrev pub required_of : Option (List Text) → List Text
required_of none = default_required_paths
required_of (some paths) = paths

module _ {N : Type 0} where
  abbrev pub is_text : Option (Json N) → Text → Bool
  is_text (some (str s)) t = text_eq s t
  is_text _ t = false

  abbrev pub is_date_time : Option (Json N) → Bool
  is_date_time (some (str s)) = is_valid_eta_date_time_issued s
  is_date_time _ = false

  unfoldable pub required_issues : Fields N → List Text → List ValidationIssue
  required_issues document [] = []
  required_issues document (path ∷ paths) =
      unless (has_path document path) (record {
        code = lit "REQUIRED_FIELD";
        path = path;
        severity = error;
        message_key = lit "documents.validation.required";
        params = (lit "path", path) ∷ [];
      })
      ++ required_issues document paths

module _ ⦃n : Numerics⦄ where
  -- A value that counts as true; the numbers are those of JSON, and `NaN` is none of them.
  abbrev pub truthy : Option (Json n.Double) → Bool
  truthy none = false
  truthy (some null) = false
  truthy (some (bool b)) = b
  truthy (some object_constructor) = true
  truthy (some (num x)) = n.is_positive x || n.is_negative x
  truthy (some (str s)) = not (is_empty_text s)
  truthy (some (arr xs)) = true
  truthy (some (obj fs)) = true

  unfoldable pub version_issues : Fields n.Double → Text → List ValidationIssue
  version_issues document version =
      let actual = get_field document (lit "documentTypeVersion") in
      unless (is_empty_text version || not (truthy actual) || is_text actual version) (
        plain_error (lit "DOC_VERSION_MISMATCH") (lit "documentTypeVersion")
          (lit "documents.validation.versionMismatch"))

  unfoldable pub date_issues : Fields n.Double → List ValidationIssue
  date_issues document =
      let date = get_field document (lit "dateTimeIssued") in
      unless (is_date_time date) (record {
        code = lit "ETA_DATETIME_PATTERN";
        path = lit "dateTimeIssued";
        severity = error;
        message_key = lit "documents.validation.dateTimeIssuedPattern";
        params =
            (lit "value", string_or_empty date) ∷ (lit "pattern", lit "yyyy-MM-ddTHH:mm:ssZ") ∷ [];
      })

  -- `if (p in fs) assertJsonNumber(issues, prefix + p, fs[p])` for each of the paths.
  unfoldable pub number_issues : Fields n.Double → Text → List Text → List ValidationIssue
  number_issues fs before [] = []
  number_issues fs before (p ∷ ps) =
      let own = if has_key fs p then assert_json_number (before ++ p) (get_field fs p) else [] in
      own ++ number_issues fs before ps

  unfoldable pub tax_total_issues : ℕ → Items n.Double → List ValidationIssue
  tax_total_issues i nil = []
  tax_total_issues i (cons (obj t) ts) =
      assert_json_number (indexed (lit "taxTotals") i (lit ".amount")) (get_field t (lit "amount"))
      ++ tax_total_issues (suc i) ts
  tax_total_issues i (cons t ts) = tax_total_issues (suc i) ts

  abbrev pub unit_value_issues : ℕ → Option (Json n.Double) → List ValidationIssue
  unit_value_issues i (some (obj uv)) =
      assert_json_number (indexed (lit "invoiceLines") i (lit ".unitValue.amountEGP"))
        (get_field uv (lit "amountEGP"))
  unit_value_issues i _ = []

  unfoldable pub invoice_line_issues : ℕ → Items n.Double → List ValidationIssue
  invoice_line_issues i nil = []
  invoice_line_issues i (cons (obj line) ls) =
      number_issues line (indexed (lit "invoiceLines") i (lit ".")) line_paths
      ++ (unit_value_issues i (get_field line (lit "unitValue")) ++ invoice_line_issues (suc i) ls)
  invoice_line_issues i (cons l ls) = invoice_line_issues (suc i) ls

  abbrev pub tax_totals_of : Option (Json n.Double) → List ValidationIssue
  tax_totals_of (some (arr ts)) = tax_total_issues 0 ts
  tax_totals_of _ = []

  abbrev pub invoice_lines_of : Option (Json n.Double) → List ValidationIssue
  invoice_lines_of (some (arr ls)) = invoice_line_issues 0 ls
  invoice_lines_of _ = []

unfoldable pub ref_issues : ValidatorRefs → List ValidationIssue
ref_issues refs =
    unless refs.branch_ok (
      plain_error (lit "BRANCH_INACTIVE") (lit "branchId")
        (lit "documents.validation.branchInactive"))
    ++ (unless refs.currency_ok (
          plain_error (lit "CURRENCY_DISABLED") (lit "currencyCode")
            (lit "documents.validation.currencyDisabled"))
        ++ (unless refs.item_codes_ok (
              plain_error (lit "ITEM_CODE_UNKNOWN") (lit "lines")
                (lit "documents.validation.itemCode"))
            ++ unless (not (is_false refs.exchange_rate_ok)) (
                plain_error (lit "EXCHANGE_RATE_MISSING") (lit "exchangeRate")
                  (lit "documents.validation.exchangeRate"))))

-- A receiver type that the kind of the document allows.
abbrev pub allowed_type : Bool → Option EtaReceiverType → Bool
allowed_type exporting none = false
allowed_type false (some t) = true
allowed_type true (some foreign) = true
allowed_type true (some t) = false

module _ ⦃u : Unicode⦄ ⦃n : Numerics⦄ where
  unfoldable pub receiver_issues : DocumentKind → Option (Fields n.Double) → List ValidationIssue
  receiver_issues kind none = []
  receiver_issues kind (some recv) =
      let type = coalesce (get_field recv (lit "type")) (get_field recv (lit "Type")) in
      let exporting = starts_with (lit "EXPORT") (kind_name kind) in
      let raw = as_eta_receiver_type (to_upper (clean_string type)) in
      unless
        (not (has_key recv (lit "type") || has_key recv (lit "Type")) || allowed_type exporting raw)
        (record {
          code = lit "RECEIVER_TYPE_INVALID";
          path = lit "receiver.type";
          severity = error;
          message_key = lit "documents.validation.receiverType";
          params =
              (lit "path", lit "receiver.type")
              ∷ (lit "got", string_or_empty type)
              ∷ (lit "allowed", if exporting then lit "F" else lit "B, P, F")
              ∷ [];
        })

  unfoldable pub reference_issues : DocumentKind → Option Bool → List ValidationIssue
  reference_issues kind original =
      let note =
        includes (lit "CREDIT") (kind_name kind) || includes (lit "DEBIT") (kind_name kind) in
      unless (not (note && is_false original)) (
        plain_error (lit "REFERENCE_REQUIRED") (lit "references")
          (lit "documents.validation.referenceRequired"))

  abbrev pub entered_issues : DocumentKind → Option (List LineInput) → List ValidationIssue
  entered_issues kind none = []
  entered_issues kind (some lines) = lines_issues 0 lines ++ tax_free_issues (kind_name kind) lines

  -- The issues up to the check of the totals.
  unfoldable pub payload_issues : Validation n.Double → List ValidationIssue
  payload_issues v =
      let document = v.document in
      unless (is_text (get_field document (lit "documentType")) (kind_to_eta_type v.kind)) (
        plain_error (lit "DOC_TYPE_MISMATCH") (lit "documentType")
          (lit "documents.validation.typeMismatch"))
      ++ (version_issues document v.type_version_schema.document_type_version
          ++ (required_issues document (required_of v.type_version_schema.required_paths)
              ++ (date_issues document
                  ++ (number_issues document [] decimal_doc_paths
                      ++ (tax_totals_of (get_field document (lit "taxTotals"))
                          ++ invoice_lines_of (get_field document (lit "invoiceLines")))))))

  unfoldable pub validate_document : Validation n.Double → Calc (List ValidationIssue)
  validate_document v = do
    totals ← check_eta_totals v.document
    ok (
        payload_issues v
        ++ (totals
            ++ (ref_issues v.refs
                ++ (receiver_issues v.kind (as_record (get_field v.document (lit "receiver")))
                    ++ (reference_issues v.kind v.refs.original_document_ok
                        ++ entered_issues v.kind v.lines)))))
