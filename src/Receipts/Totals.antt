-- ===== src/Receipts/Totals.antt =====
-- packages/eta-core/src/receipts/receipt-totals.ts: the lines and the totals of a receipt, by the
-- calculations of an invoice.
pub mod Sums
use einvoice.Prelude.{Option, none, some, List, [], ◌∷◌, Text, lit, Unicode, Result, ok, ◌>>=◌}
use einvoice.Money.{Numerics, Calc, zero_money, format_money, add, mul}
use einvoice.Tax.{LineTaxInput}
use einvoice.Totals.{given}
use einvoice.Totals.Line.{LineInput, LineComputed, calculate_line}
use einvoice.Totals.Document.{calculate_document_totals}

pub record ReceiptDiscountEntry : Type 0 where
  pub amount : Option Text
  pub description : Option Text
  pub rate : Option Text

-- An absent list of discounts and an empty one are treated alike.
pub record ReceiptLineInput : Type 0 where
  pub internal_code : Text
  pub description : Text
  pub item_type : Text
  pub item_code : Text
  pub unit_type : Text
  pub quantity : Text
  pub unit_price : Text
  pub commercial_discount_data : List ReceiptDiscountEntry
  pub item_discount_data : List ReceiptDiscountEntry
  pub additional_commercial_discount : Option ReceiptDiscountEntry
  pub additional_item_discount : Option ReceiptDiscountEntry
  pub value_difference : Option Text
  pub taxes : List LineTaxInput

pub record ReceiptExtraDiscount : Type 0 where
  pub amount : Text
  pub description : Option Text

pub record ReceiptLineComputed : Type 0 where
  pub line : LineComputed
  pub total_sale : Text
  pub net_sale : Text

pub record ReceiptDocumentTotals : Type 0 where
  pub total_sales : Text
  pub total_commercial_discount : Text
  pub total_items_discount : Text
  pub extra_receipt_discount : Text
  pub net_amount : Text
  pub fees_amount : Text
  pub adjustment : Text
  pub total_amount : Text
  pub tax_totals : List (Text × Text)

-- `text || '0'`
abbrev pub or_zero : Text → Text
or_zero [] = lit "0"
or_zero (c ∷ s) = c ∷ s

abbrev pub lines_of : List ReceiptLineComputed → List LineComputed
lines_of [] = []
lines_of (l ∷ ls) = l.line ∷ lines_of ls

module _ ⦃u : Unicode⦄ ⦃n : Numerics⦄ where
  unfoldable pub entry_amount : ReceiptDiscountEntry → Text → Calc Text
  entry_amount entry base = elim (given entry.amount) [
    | some amount ↦ format_money amount
    | none ↦ elim (given entry.rate) [
      | some rate ↦ mul base (n.percent rate)
      | none ↦ ok zero_money
    ]
  ]

  unfoldable pub sum_entries_loop : Text → List ReceiptDiscountEntry → Text → Calc Text
  sum_entries_loop sum [] base = ok sum
  sum_entries_loop sum (entry ∷ entries) base = do
    amount ← entry_amount entry base
    sum' ← add sum amount
    sum_entries_loop sum' entries base

  abbrev sum_entries : List ReceiptDiscountEntry → Text → Calc Text
  sum_entries entries base = sum_entries_loop zero_money entries base

  -- `if (additional) sum = add(sum, entryAmount(additional, salesTotal))`
  unfoldable pub add_additional : Text → Option ReceiptDiscountEntry → Text → Calc Text
  add_additional sum none base = ok sum
  add_additional sum (some entry) base = entry_amount entry base >>= λ amount. add sum amount

  unfoldable pub commercial_discount_total : ReceiptLineInput → Text → Calc Text
  unfolding sum_entries_loop add_additional entry_amount
  commercial_discount_total line sales_total = do
    sum ← sum_entries line.commercial_discount_data sales_total
    add_additional sum line.additional_commercial_discount sales_total

  unfoldable pub item_discount_total : ReceiptLineInput → Text → Calc Text
  unfolding sum_entries_loop add_additional entry_amount
  item_discount_total line sales_total = do
    sum ← sum_entries line.item_discount_data sales_total
    add_additional sum line.additional_item_discount sales_total

  unfoldable pub extra_discount_loop : Text → List ReceiptExtraDiscount → Calc Text
  extra_discount_loop sum [] = ok sum
  extra_discount_loop sum (extra ∷ extras) =
      add sum (or_zero extra.amount) >>= λ sum'. extra_discount_loop sum' extras

  abbrev pub extra_receipt_discount_total : List ReceiptExtraDiscount → Calc Text
  extra_receipt_discount_total extras = extra_discount_loop zero_money extras

  unfoldable pub to_invoice_line_input : ReceiptLineInput → Calc LineInput
  unfolding commercial_discount_total item_discount_total
  to_invoice_line_input line = do
    sales_total ← mul line.quantity line.unit_price
    discount ← commercial_discount_total line sales_total
    items ← item_discount_total line sales_total
    ok (record {
      description = line.description;
      item_type = line.item_type;
      item_code = line.item_code;
      unit_type = line.unit_type;
      quantity = line.quantity;
      unit_price = line.unit_price;
      discount_amount = some discount;
      discount_rate = none;
      taxes = line.taxes;
      items_discount = some items;
      value_difference = line.value_difference;
      currency_sold = none;
      amount_egp = none;
      amount_sold = none;
      currency_exchange_rate = none;
      internal_code = some line.internal_code;
      weight_unit_type = none;
      weight_quantity = none;
    })

  unfoldable pub calculate_receipt_line : ReceiptLineInput → Calc ReceiptLineComputed
  calculate_receipt_line line = do
    input ← to_invoice_line_input line
    computed ← calculate_line input
    ok (record {
      line = computed;
      total_sale = computed.sales_total;
      net_sale = computed.net_total;
    })

  unfoldable pub calculate_receipt_document_totals :
      List ReceiptLineComputed → List ReceiptExtraDiscount → Calc ReceiptDocumentTotals
  unfolding extra_discount_loop
  calculate_receipt_document_totals lines extras = do
    extra ← extra_receipt_discount_total extras
    totals ← calculate_document_totals (lines_of lines) extra
    ok (record {
      total_sales = totals.total_sales_amount;
      total_commercial_discount = totals.total_discount_amount;
      total_items_discount = totals.total_items_discount_amount;
      extra_receipt_discount = extra;
      net_amount = totals.net_amount;
      fees_amount = zero_money;
      adjustment = zero_money;
      total_amount = totals.total_amount;
      tax_totals = totals.tax_totals;
    })
