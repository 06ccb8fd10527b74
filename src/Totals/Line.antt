-- ===== src/Totals/Line.antt =====
-- `calculateLine` of packages/eta-core/src/calculate-totals.ts.
use einvoice.Prelude.{Option, none, some, List, [], ◌∷◌, map, Text, Unicode, ok, thrown, ◌>>=◌}
use einvoice.Money.{Numerics, Calc, duplicate_tax_type, zero_money, format_money, sub, mul}
use einvoice.Tax.{LineTaxInput, find_duplicate_tax_types}
use einvoice.Totals.{
  LineTaxComputed, EtaTaxAmount, EtaItemTotalBreakdown, given, or_else, estimate_eta_item_total,
  compute_tax_amounts,
}

pub record LineInput : Type 0 where
  pub description : Text
  pub item_type : Text
  pub item_code : Text
  pub unit_type : Text
  pub quantity : Text
  pub unit_price : Text
  pub discount_amount : Option Text
  pub discount_rate : Option Text
  -- An absent list and an empty one are treated alike.
  pub taxes : List LineTaxInput
  pub items_discount : Option Text
  pub value_difference : Option Text
  pub currency_sold : Option Text
  pub amount_egp : Option Text
  pub amount_sold : Option Text
  pub currency_exchange_rate : Option Text
  pub internal_code : Option Text
  pub weight_unit_type : Option Text
  pub weight_quantity : Option Text

pub record LineComputed : Type 0 where
  pub sales_total : Text
  pub discount : Text
  pub net_total : Text
  pub tax_amounts : List LineTaxComputed
  pub additive_tax_total : Text
  pub deductible_tax_total : Text
  pub total : Text
  pub items_discount : Text
  pub value_difference : Text
  pub total_taxable_fees : Text

-- A computed tax as the input of the item-total equation.
abbrev pub as_amount : LineTaxComputed → EtaTaxAmount
as_amount t = record { tax_type = t.tax_type; amount = t.amount }

abbrev pub check_duplicates : List Text → Calc (Unit {0})
check_duplicates [] = ok tt
check_duplicates (d ∷ ds) = thrown (duplicate_tax_type (d ∷ ds))

module _ ⦃u : Unicode⦄ ⦃n : Numerics⦄ where
  unfoldable pub line_discount : LineInput → Text → Calc Text
  line_discount input sales_total = elim (given input.discount_amount) [
    | some amount ↦ format_money amount
    | none ↦ elim (given input.discount_rate) [
      | some rate ↦ mul sales_total (n.percent rate)
      | none ↦ ok zero_money
    ]
  ]

  -- The record that `calculateLine` returns.
  abbrev pub line_of :
      Text
      → Text
      → Text
      → Text
      → Text
      → List LineTaxComputed × Text
      → EtaItemTotalBreakdown
      → LineComputed
  line_of sales discount items difference net taxes breakdown = record {
    sales_total = sales;
    discount = discount;
    net_total = net;
    tax_amounts = taxes.0;
    additive_tax_total = breakdown.additive_tax_total;
    deductible_tax_total = breakdown.deductible_tax_total;
    total = breakdown.total;
    items_discount = items;
    value_difference = difference;
    total_taxable_fees = taxes.1;
  }

  unfoldable pub calculate_line : LineInput → Calc LineComputed
  calculate_line input = do
    _ ← check_duplicates (find_duplicate_tax_types input.taxes)
    sales ← mul input.quantity input.unit_price
    discount ← line_discount input sales
    items ← format_money (or_else input.items_discount zero_money)
    difference ← format_money (or_else input.value_difference zero_money)
    net ← sub sales discount
    taxes ← compute_tax_amounts input.taxes net items difference
    breakdown ← estimate_eta_item_total net (some items) (map as_amount taxes.0)
    ok (line_of sales discount items difference net taxes breakdown)
