-- ===== src/Receipts/Validator/Recomputed.antt =====
-- The amounts, the buyer and the recomputed totals in `validateReceipt` of
-- packages/eta-core/src/receipts/receipt-validator.ts, and the validation as a whole.
use einvoice.Prelude.{
  Bool, true, false, not, Option, none, some, List, [], ◌∷◌, ◌++◌, Text, lit, Unicode, ok, ◌>>=◌,
  traverse, if◌then◌else◌,
}
use einvoice.Prelude.Numeral.{digits}
use einvoice.Money.{Numerics, Calc, format_money}
use einvoice.Json.{Json, null, num, Fields, get_field}
use einvoice.Validation.{Severity, ValidationIssue, error, warning, unless}
use einvoice.Validation.Totals.{string_or_empty}
use einvoice.Receipts.Types.{
  as_receipt_type, is_receipt_buyer_type, is_receipt_payment_method, buyer_identity_required,
}
use einvoice.Receipts.Totals.{
  ReceiptLineInput, ReceiptDocumentTotals, calculate_receipt_line,
  calculate_receipt_document_totals,
}
use einvoice.Receipts.Builder.{ReceiptBuildInput, is_blank_text}
use einvoice.Receipts.Validator.{
  receipt_issue, buyer_id_threshold, trimmed_text, object_or_empty, is_zero_number,
  receipt_number_issues,
}
use einvoice.Receipts.Validator.Header.{type_issues, header_issues, seller_issues}
use einvoice.Receipts.Validator.Lines.{item_data_issues}

-- A path, the recomputed amount and the value of the document.
abbrev pub TotalCheck : Type 0 → Type 0
TotalCheck N = Text × Text × Option (Json N)

abbrev pub receipt_amount_paths : List Text
receipt_amount_paths =
    lit "feesAmount"
    ∷ lit "adjustment"
    ∷ lit "totalSales"
    ∷ lit "netAmount"
    ∷ lit "totalAmount"
    ∷ lit "totalCommercialDiscount"
    ∷ lit "totalItemsDiscount"
    ∷ []

abbrev pub is_error : Severity → Bool
is_error error = true
is_error warning = false

-- `filter((row) => row.severity === 'error')`
abbrev pub errors_of : List ValidationIssue → List ValidationIssue
errors_of [] = []
errors_of (row ∷ rows) = if is_error row.severity then row ∷ errors_of rows else errors_of rows

abbrev pub no_lines : List ReceiptLineInput → Bool
no_lines [] = true
no_lines (l ∷ ls) = false

module _ ⦃n : Numerics⦄ where
  -- `String(value ?? '0')`, and the text of a number.
  abbrev pub amount_text : Option (Json n.Double) → Text
  amount_text none = lit "0"
  amount_text (some null) = lit "0"
  amount_text (some v) = string_or_empty (some v)

  unfoldable pub amounts_close : Text → Option (Json n.Double) → Calc Bool
  amounts_close a b =
      format_money (amount_text b) >>= λ right. ok (n.is_close (n.number a) (n.number right))

  unfoldable pub total_check_issues : TotalCheck n.Double → Calc (List ValidationIssue)
  total_check_issues (path, expected, actual) = do
    close ← amounts_close expected actual
    ok (
        unless close (
          receipt_issue (lit "TOTALS_MISMATCH") path (lit "receipts.validation.totalsMismatch") (
            (lit "path", path)
            ∷ (lit "expected", expected)
            ∷ (lit "actual", string_or_empty actual)
            ∷ [])))

  unfoldable pub total_checks_issues : List (TotalCheck n.Double) → Calc (List ValidationIssue)
  total_checks_issues [] = ok []
  total_checks_issues (c ∷ cs) = do
    own ← total_check_issues c
    rest ← total_checks_issues cs
    ok (own ++ rest)

  abbrev pub total_checks : ReceiptDocumentTotals → Fields n.Double → List (TotalCheck n.Double)
  total_checks t document =
      (lit "totalSales", t.total_sales, get_field document (lit "totalSales"))
      ∷ (lit "netAmount", t.net_amount, get_field document (lit "netAmount"))
      ∷ (lit "totalAmount", t.total_amount, get_field document (lit "totalAmount"))
      ∷ (
        lit "totalCommercialDiscount",
        t.total_commercial_discount,
        get_field document (lit "totalCommercialDiscount"),
      )
      ∷ (
        lit "totalItemsDiscount",
        t.total_items_discount,
        get_field document (lit "totalItemsDiscount"),
      )
      ∷ []

  -- The total of the document, or 0, is 150,000 or more.
  abbrev pub total_reaches : Option (Json n.Double) → Bool
  total_reaches (some (num x)) =
      n.reaches (if n.is_finite x then x else n.number (lit "0")) buyer_id_threshold
  total_reaches _ = n.reaches (n.number (lit "0")) buyer_id_threshold

module _ ⦃u : Unicode⦄ ⦃n : Numerics⦄ where
  unfoldable pub buyer_issues : Fields n.Double → Option (Json n.Double) → List ValidationIssue
  buyer_issues buyer total =
      let type = trimmed_text (get_field buyer (lit "type")) in
      let named = (lit "type", type) ∷ (lit "threshold", digits buyer_id_threshold) ∷ [] in
      if buyer_identity_required type (total_reaches total)
      then unless (not (is_blank_text (trimmed_text (get_field buyer (lit "id"))))) (
          receipt_issue (lit "BUYER_ID_REQUIRED") (lit "buyer.id")
            (lit "receipts.validation.buyerId") named)
        ++ unless (not (is_blank_text (trimmed_text (get_field buyer (lit "name"))))) (
            receipt_issue (lit "BUYER_NAME_REQUIRED") (lit "buyer.name")
              (lit "receipts.validation.buyerName") named)
      else []

  -- The type of the buyer, the payment method and the amounts of the receipt.
  unfoldable pub amount_issues : Fields n.Double → Text → List ValidationIssue
  amount_issues document buyer_type =
      unless (is_receipt_buyer_type buyer_type) (
        receipt_issue (lit "BUYER_TYPE_INVALID") (lit "buyer.type")
          (lit "receipts.validation.buyerType") ((lit "value", buyer_type) ∷ []))
      ++ (unless
            (is_receipt_payment_method (trimmed_text (get_field document (lit "paymentMethod"))))
            (receipt_issue (lit "PAYMENT_METHOD_REQUIRED") (lit "paymentMethod")
              (lit "receipts.validation.paymentMethod") [])
          ++ (unless (is_zero_number (get_field document (lit "feesAmount"))) (
                receipt_issue (lit "FEES_AMOUNT_ZERO") (lit "feesAmount")
                  (lit "receipts.validation.feesAmount") [])
              ++ (unless (is_zero_number (get_field document (lit "adjustment"))) (
                    receipt_issue (lit "ADJUSTMENT_ZERO") (lit "adjustment")
                      (lit "receipts.validation.adjustment") [])
                  ++ receipt_number_issues document [] receipt_amount_paths)))

  -- The issues up to the recomputed totals.
  unfoldable pub receipt_field_issues : Fields n.Double → List ValidationIssue
  receipt_field_issues document =
      let header = object_or_empty (get_field document (lit "header")) in
      let document_type = object_or_empty (get_field document (lit "documentType")) in
      let seller = object_or_empty (get_field document (lit "seller")) in
      let buyer = object_or_empty (get_field document (lit "buyer")) in
      let type = trimmed_text (get_field document_type (lit "receiptType")) in
      type_issues type (trimmed_text (get_field document_type (lit "typeVersion")))
      ++ (header_issues (as_receipt_type type) header
          ++ (seller_issues seller
              ++ (amount_issues document (trimmed_text (get_field buyer (lit "type")))
                  ++ (item_data_issues (get_field document (lit "itemData"))
                      ++ buyer_issues buyer (get_field document (lit "totalAmount"))))))

  unfoldable pub recomputed_issues :
      Fields n.Double → Option (ReceiptBuildInput n.Double) → Calc (List ValidationIssue)
  recomputed_issues document none = ok []
  recomputed_issues document (some input) = if no_lines input.lines then ok [] else (do
    lines ← traverse calculate_receipt_line input.lines
    totals ← calculate_receipt_document_totals lines input.extra_receipt_discount_data
    total_checks_issues (total_checks totals document))

  unfoldable pub validate_receipt :
      Fields n.Double → Option (ReceiptBuildInput n.Double) → Calc (List ValidationIssue)
  validate_receipt document input = recomputed_issues document input >>= λ recomputed.
      ok (receipt_field_issues document ++ recomputed)

  unfoldable pub assert_receipt_valid :
      Fields n.Double → Option (ReceiptBuildInput n.Double) → Calc (List ValidationIssue)
  assert_receipt_valid document input =
      validate_receipt document input >>= λ issues. ok (errors_of issues)
