-- ===== src/Receipts/Validator/Lines.antt =====
-- The lines of a receipt in `validateReceipt` of
-- packages/eta-core/src/receipts/receipt-validator.ts.
use einvoice.Prelude.{
  ℕ, suc, Bool, true, false, not, Option, none, some, List, [], ◌∷◌, ◌++◌, Text, lit, ltb,
  if◌then◌else◌,
}
use einvoice.Prelude.Numeral.{digits}
use einvoice.Money.{Numerics}
use einvoice.Json.{Json, null, arr, obj, Items, nil, cons, Fields, get_field}
use einvoice.Validation.{ValidationIssue, unless, indexed}
use einvoice.Receipts.Types.{max_receipt_lines}
use einvoice.Receipts.Builder.{is_blank_text}
use einvoice.Receipts.Validator.{
  receipt_issue, required_issue, trimmed_text, blank_issues, receipt_number_issues,
}

-- `internalCode` is reported on its own.
abbrev pub item_text_paths : List Text
item_text_paths = lit "description" ∷ lit "itemType" ∷ lit "itemCode" ∷ lit "unitType" ∷ []

abbrev pub item_number_paths : List Text
item_number_paths =
    lit "quantity" ∷ lit "unitPrice" ∷ lit "netSale" ∷ lit "totalSale" ∷ lit "total" ∷ []

abbrev pub is_absent : {N : Type 0} → Option (Json N) → Bool
is_absent none = true
is_absent (some null) = true
is_absent (some v) = false

abbrev pub count_items : {N : Type 0} → Items N → ℕ
count_items nil = 0
count_items (cons x xs) = suc (count_items xs)

module _ ⦃n : Numerics⦄ where
  unfoldable pub receipt_item_issues : ℕ → Fields n.Double → List ValidationIssue
  receipt_item_issues i line =
      unless (not (is_blank_text (trimmed_text (get_field line (lit "internalCode"))))) (
        receipt_issue (lit "INTERNAL_CODE_REQUIRED")
          (indexed (lit "itemData") i (lit ".internalCode"))
          (lit "receipts.validation.internalCode") ((lit "line", digits (suc i)) ∷ []))
      ++ (blank_issues line (indexed (lit "itemData") i (lit ".")) item_text_paths
          ++ (receipt_number_issues line (indexed (lit "itemData") i (lit ".")) item_number_paths
              ++ unless (is_absent (get_field line (lit "unitValue"))) (
                  receipt_issue (lit "RECEIPT_UNIT_PRICE_SCALAR")
                    (indexed (lit "itemData") i (lit ".unitPrice"))
                    (lit "receipts.validation.unitPriceScalar") [])))

  -- What is no object is passed over.
  unfoldable pub each_item_issues : ℕ → Items n.Double → List ValidationIssue
  each_item_issues i nil = []
  each_item_issues i (cons (obj line) ls) =
      receipt_item_issues i line ++ each_item_issues (suc i) ls
  each_item_issues i (cons l ls) = each_item_issues (suc i) ls

  unfoldable pub item_data_issues : Option (Json n.Double) → List ValidationIssue
  item_data_issues (some (arr (cons l ls))) =
      if ltb max_receipt_lines (count_items (cons l ls))
      then receipt_issue (lit "RECEIPT_LINE_LIMIT") (lit "itemData")
          (lit "receipts.validation.lineLimit") ((lit "max", digits max_receipt_lines) ∷ [])
        ∷ []
      else each_item_issues 0 (cons l ls)
  item_data_issues _ = required_issue (lit "itemData") ∷ []
