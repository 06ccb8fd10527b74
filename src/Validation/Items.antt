-- ===== src/Validation/Items.antt =====
-- The checks of the lines, as they were entered, in `validateDocument` of
-- packages/eta-core/src/local-validator.ts.
use einvoice.Prelude.{
  ℕ, suc, Bool, true, false, not, ◌&&◌, ◌||◌, none, some, List, [], ◌∷◌, ◌++◌, Text, lit, text_eq,
  Unicode, ok, thrown, if◌then◌else◌, all,
}
use einvoice.Money.{Numerics, Calc, decimal_error, duplicate_tax_type, fixed_amount_required}
use einvoice.Tax.{LineTaxInput, find_duplicate_tax_types, is_fixed_amount_tax_type}
use einvoice.Totals.{given}
use einvoice.Totals.Line.{LineInput, calculate_line}
use einvoice.Validation.{ValidationIssue, error, warning, plain_error, unless, indexed}

-- `list.join(', ')`
abbrev pub join_comma : List Text → Text
join_comma [] = []
join_comma (x ∷ []) = x
join_comma (x ∷ y ∷ ys) = x ++ (lit ", " ++ join_comma (y ∷ ys))

-- `lines[1].taxes[2].rate` of 1, 2 and `.rate`.
abbrev pub tax_path : ℕ → ℕ → Text → Text
tax_path i j rest = indexed (lit "lines") i (indexed (lit ".taxes") j rest)

-- An error of a tax, with its code, path, message key and type.
abbrev pub tax_error : Text → Text → Text → Text → ValidationIssue
tax_error code path key tax_type = record {
  code = code;
  path = path;
  severity = error;
  message_key = key;
  params = (lit "taxType", tax_type) ∷ [];
}

-- What the `catch` of `calculateLine` reports: the repeated type and the missing amount are
-- reported above.
abbrev pub calculation_issues : {A : Type 0} → ℕ → Calc A → List ValidationIssue
calculation_issues i (ok c) = []
calculation_issues i (thrown (duplicate_tax_type codes)) = []
calculation_issues i (thrown (fixed_amount_required code)) = []
calculation_issues i (thrown decimal_error) =
    plain_error (lit "LINE_CALC_ERROR") (indexed (lit "lines") i [])
      (lit "documents.validation.lineCalc")
    ∷ []

abbrev pub duplicate_issues : ℕ → List Text → List ValidationIssue
duplicate_issues i [] = []
duplicate_issues i (d ∷ dupes) =
    record {
      code = lit "DUPLICATE_TAX_TYPE";
      path = indexed (lit "lines") i (lit ".taxes");
      severity = error;
      message_key = lit "documents.validation.duplicateTaxType";
      params = (lit "taxTypes", join_comma (d ∷ dupes)) ∷ [];
    }
    ∷ []

module _ ⦃n : Numerics⦄ where
  -- The amount of a tax that is a fixed amount.
  unfoldable pub fixed_amount_issues : ℕ → ℕ → LineTaxInput → List ValidationIssue
  fixed_amount_issues i j tax =
      let required =
        tax_error (lit "FIXED_TAX_AMOUNT_REQUIRED") (tax_path i j (lit ".amount"))
          (lit "documents.validation.fixedTaxAmountRequired") tax.tax_type in
      let negative =
        tax_error (lit "FIXED_TAX_AMOUNT_NEGATIVE") (tax_path i j (lit ".amount"))
          (lit "documents.validation.fixedTaxAmountNegative") tax.tax_type in
      elim (given tax.amount) [
        | none ↦ required ∷ []
        | some a ↦
            if n.is_finite (n.number a)
            then unless (not (n.is_negative (n.number a))) negative
            else required ∷ []
      ]

  unfoldable pub fixed_rate_issues : ℕ → ℕ → LineTaxInput → List ValidationIssue
  fixed_rate_issues i j tax =
      let rate = n.number tax.rate in
      unless (not (n.is_finite rate && not (n.is_zero rate))) (
        tax_error (lit "FIXED_TAX_RATE_MUST_BE_ZERO") (tax_path i j (lit ".rate"))
          (lit "documents.validation.fixedTaxRateZero") tax.tax_type)

  -- `!(q > 0)` and `!(p >= 0)`
  unfoldable pub quantity_issues : ℕ → LineInput → List ValidationIssue
  quantity_issues i line =
      let p = n.number line.unit_price in
      unless (n.is_positive (n.number line.quantity)) (
        plain_error (lit "INVALID_QUANTITY") (indexed (lit "lines") i (lit ".quantity"))
          (lit "documents.validation.quantity"))
      ++ unless (n.is_positive p || n.is_zero p) (
          plain_error (lit "INVALID_PRICE") (indexed (lit "lines") i (lit ".unitPrice"))
            (lit "documents.validation.price"))

module _ ⦃u : Unicode⦄ ⦃n : Numerics⦄ where
  unfoldable pub tax_issues : ℕ → ℕ → List LineTaxInput → List ValidationIssue
  tax_issues i j [] = []
  tax_issues i j (t ∷ ts) =
      let own =
        if is_fixed_amount_tax_type t.tax_type
        then fixed_amount_issues i j t ++ fixed_rate_issues i j t
        else [] in
      own ++ tax_issues i (suc j) ts

  -- One round of `lines.forEach`.
  unfoldable pub line_issues : ℕ → LineInput → List ValidationIssue
  line_issues i line =
      quantity_issues i line
      ++ (duplicate_issues i (find_duplicate_tax_types line.taxes)
          ++ (tax_issues i 0 line.taxes ++ calculation_issues i (calculate_line line)))

  unfoldable pub lines_issues : ℕ → List LineInput → List ValidationIssue
  lines_issues i [] = []
  lines_issues i (l ∷ ls) = line_issues i l ++ lines_issues (suc i) ls

-- `documentKindTypicallyRequiresTax` of packages/eta-core/src/tax-modes.ts.
unfoldable pub document_kind_typically_requires_tax : Text → Bool
document_kind_typically_requires_tax kind =
    text_eq kind (lit "INVOICE")
    || text_eq kind (lit "CREDIT_NOTE")
    || text_eq kind (lit "DEBIT_NOTE")

abbrev pub no_taxes : List LineTaxInput → Bool
no_taxes [] = true
no_taxes (t ∷ ts) = false

-- `isFullyTaxFree` of packages/eta-core/src/tax-modes.ts.
unfoldable pub is_fully_tax_free : List LineInput → Bool
is_fully_tax_free lines = all (λ l. no_taxes l.taxes) lines

unfoldable pub tax_free_issues : Text → List LineInput → List ValidationIssue
unfolding document_kind_typically_requires_tax is_fully_tax_free
tax_free_issues kind lines =
    unless (not (document_kind_typically_requires_tax kind && is_fully_tax_free lines)) (record {
      code = lit "TAX_TYPICALLY_REQUIRED";
      path = lit "invoiceLines";
      severity = warning;
      message_key = lit "documents.validation.taxTypicallyRequired";
      params = [];
    })
