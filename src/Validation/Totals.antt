-- ===== src/Validation/Totals.antt =====
-- `checkEtaTotals` of packages/eta-core/src/local-validator.ts: ETA's equations, recomputed from the
-- payload.
use einvoice.Prelude.{
  ℕ, suc, Bool, true, false, ◌||◌, Option, none, some, List, [], ◌∷◌, ◌++◌, Text, lit, Unicode, ok,
  ◌>>=◌,
}
use einvoice.Prelude.Numeral.{digits}
use einvoice.Money.{Numerics, Calc, zero_money, add, sub}
use einvoice.Json.{Json, null, arr, obj, Items, nil, cons, Fields, get_field}
use einvoice.Json.Strings.{js_string}
use einvoice.Totals.{EtaTaxAmount, EtaItemTotalBreakdown, or_else, estimate_eta_item_total}
use einvoice.Validation.{ValidationIssue, error, indexed, to_amount, beyond_tolerance}

-- The variables of the loop over the lines.
pub record TotalsCheck : Type 0 where
  pub sum_line_totals : Text
  pub sum_net_totals : Text
  pub incomplete : Bool
  pub issues : List ValidationIssue

abbrev pub initial_check : TotalsCheck
initial_check = record {
  sum_line_totals = zero_money;
  sum_net_totals = zero_money;
  incomplete = false;
  issues = [];
}

abbrev pub mismatch_if : Option Text → (Text → ValidationIssue) → List ValidationIssue
mismatch_if none issue = []
mismatch_if (some difference) issue = issue difference ∷ []

-- The taxes of a line that can be read, and whether one cannot.
abbrev pub TaxesRead : Type 0
TaxesRead = List EtaTaxAmount × Bool

abbrev pub read_taxes_of : {N : Type 0} → Option (Json N) → Items N
read_taxes_of (some (arr xs)) = xs
read_taxes_of _ = nil

abbrev pub item_mismatch : ℕ → EtaItemTotalBreakdown → Text → Text → ValidationIssue
item_mismatch i estimate declared difference = record {
  code = lit "ETA_ITEM_TOTAL_MISMATCH";
  path = indexed (lit "invoiceLines") i (lit ".total");
  severity = error;
  message_key = lit "documents.validation.itemTotalMismatch";
  params =
      (lit "line", digits (suc i))
      ∷ (lit "expected", estimate.total)
      ∷ (lit "actual", declared)
      ∷ (lit "difference", difference)
      ∷ (lit "netTotal", estimate.net_total)
      ∷ (lit "additiveTaxes", estimate.additive_tax_total)
      ∷ (lit "withholdingTaxes", estimate.deductible_tax_total)
      ∷ (lit "itemsDiscount", estimate.items_discount)
      ∷ [];
}

abbrev pub net_mismatch : Text → Text → Text → ValidationIssue
net_mismatch expected actual difference = record {
  code = lit "ETA_NET_AMOUNT_MISMATCH";
  path = lit "netAmount";
  severity = error;
  message_key = lit "documents.validation.netAmountMismatch";
  params =
      (lit "expected", expected) ∷ (lit "actual", actual) ∷ (lit "difference", difference) ∷ [];
}

abbrev pub total_mismatch : Text → Text → Text → Text → Text → ValidationIssue
total_mismatch expected actual lines extra difference = record {
  code = lit "ETA_TOTAL_AMOUNT_MISMATCH";
  path = lit "totalAmount";
  severity = error;
  message_key = lit "documents.validation.totalAmountMismatch";
  params =
      (lit "expected", expected)
      ∷ (lit "actual", actual)
      ∷ (lit "difference", difference)
      ∷ (lit "lineTotals", lines)
      ∷ (lit "extraDiscountAmount", extra)
      ∷ [];
}

-- The parts of a line that the check reads: its net total and its total.
abbrev pub read_pair : {A : Type 0} → Option Text → Option Text → A → (Text → Text → A) → A
read_pair (some a) (some b) missing f = f a b
read_pair none b missing f = missing
read_pair (some a) none missing f = missing

module _ ⦃n : Numerics⦄ where
  -- `String(value ?? '')`
  abbrev pub string_or_empty : Option (Json n.Double) → Text
  string_or_empty none = []
  string_or_empty (some null) = []
  string_or_empty (some v) = js_string v

  abbrev pub push_tax : Fields n.Double → Option Text → TaxesRead → TaxesRead
  push_tax item none (taxes, incomplete) = (taxes, true)
  push_tax item (some amount) (taxes, incomplete) = (
    record { tax_type = string_or_empty (get_field item (lit "taxType")); amount = amount } ∷ taxes,
    incomplete,
  )

  unfoldable pub read_taxes : Items n.Double → Calc TaxesRead
  read_taxes nil = ok ([], false)
  read_taxes (cons (obj item) ts) = do
    amount ← to_amount (get_field item (lit "amount"))
    rest ← read_taxes ts
    ok (push_tax item amount rest)
  read_taxes (cons t ts) = do rest ← read_taxes ts; ok (rest.0, true)

module _ ⦃u : Unicode⦄ ⦃n : Numerics⦄ where
  -- A line whose net total and total can be read.
  unfoldable pub check_read_line :
      TotalsCheck → ℕ → Fields n.Double → Text → Text → Calc TotalsCheck
  check_read_line s i line net_total declared = do
    taxes ← read_taxes (read_taxes_of (get_field line (lit "taxableItems")))
    discount ← to_amount (get_field line (lit "itemsDiscount"))
    estimate ← estimate_eta_item_total net_total (some (or_else discount zero_money)) taxes.0
    difference ← beyond_tolerance estimate.total declared
    lines ← add s.sum_line_totals declared
    nets ← add s.sum_net_totals net_total
    ok (record {
      sum_line_totals = lines;
      sum_net_totals = nets;
      incomplete = s.incomplete || taxes.1;
      issues = s.issues ++ mismatch_if difference (item_mismatch i estimate declared);
    })

  unfoldable pub check_line : TotalsCheck → ℕ → Json n.Double → Calc TotalsCheck
  check_line s i (obj line) = do
    net_total ← to_amount (get_field line (lit "netTotal"))
    declared ← to_amount (get_field line (lit "total"))
    read_pair net_total declared (ok (record s { incomplete = true })) (check_read_line s i line)
  check_line s i _ = ok (record s { incomplete = true })

  unfoldable pub check_lines : TotalsCheck → ℕ → Items n.Double → Calc TotalsCheck
  check_lines s i nil = ok s
  check_lines s i (cons line lines) = check_line s i line >>= λ s'. check_lines s' (suc i) lines

module _ ⦃n : Numerics⦄ where
  unfoldable pub check_net : Text → Option Text → Calc (List ValidationIssue)
  check_net expected none = ok []
  check_net expected (some actual) = do
    difference ← beyond_tolerance expected actual
    ok (mismatch_if difference (net_mismatch expected actual))

  unfoldable pub check_total : Fields n.Double → Text → Option Text → Calc (List ValidationIssue)
  check_total document lines none = ok []
  check_total document lines (some actual) = do
    discount ← to_amount (get_field document (lit "extraDiscountAmount"))
    let extra = or_else discount zero_money
    expected ← sub lines extra
    difference ← beyond_tolerance expected actual
    ok (mismatch_if difference (total_mismatch expected actual lines extra))

  -- The checks of the document's own totals, where every line could be read.
  unfoldable pub check_sums : Fields n.Double → TotalsCheck → Calc (List ValidationIssue)
  check_sums document s = do
    net_amount ← to_amount (get_field document (lit "netAmount"))
    nets ← check_net s.sum_net_totals net_amount
    total_amount ← to_amount (get_field document (lit "totalAmount"))
    totals ← check_total document s.sum_line_totals total_amount
    ok (s.issues ++ (nets ++ totals))

  abbrev pub unless_incomplete :
      TotalsCheck → Calc (List ValidationIssue) → Calc (List ValidationIssue)
  unless_incomplete s sums = elim s.incomplete [ true ↦ ok s.issues | false ↦ sums ]

module _ ⦃u : Unicode⦄ ⦃n : Numerics⦄ where
  unfoldable pub check_totals_of :
      Fields n.Double → Option (Json n.Double) → Calc (List ValidationIssue)
  check_totals_of document (some (arr lines)) = do
    s ← check_lines initial_check 0 lines
    unless_incomplete s (check_sums document s)
  check_totals_of document _ = ok []

  unfoldable pub check_eta_totals : Fields n.Double → Calc (List ValidationIssue)
  unfolding check_totals_of
  check_eta_totals document = check_totals_of document (get_field document (lit "invoiceLines"))
