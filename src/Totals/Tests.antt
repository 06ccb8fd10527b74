-- ===== src/Totals/Tests.antt =====
-- Runs of the code of calculate-totals.ts, and the theorems at concrete inputs.
use einvoice.Prelude.{
  ◌≡◌, refl, none, some, List, [], ◌∷◌, map, Text, lit, ok, to_upper, trim, pos, arith, ◌+ℤ◌, ◌-ℤ◌,
  All,
}
use einvoice.Prelude.Plain.{plain}
use einvoice.Money.{money, zero_money, format_money, mul, add, sub}
use einvoice.Money.Exact.{exact, read}
use einvoice.Tax.{
  LineTaxInput, find_duplicate_tax_types, eta_tax_direction, additive, deductible, EtaTaxDirection,
  is_fixed_amount_tax_type, is_taxable_fee_tax_type, is_non_taxable_fee_tax_type,
  normalize_tax_type_code,
}
use einvoice.Totals.{
  LineTaxComputed, estimate_eta_item_total, add_taxes, add_tax, compute_tax_amounts, computed_tax,
  display_rate, fixed_loop, fixed_step, fee_loop, fee_step, by_code, set_missing, set_amount,
  tax_amount_from, rest_loop, rest_step, or_else,
}
use einvoice.Totals.Maps.{map_get, map_set, map_has}
use einvoice.Totals.Line.{LineInput, LineComputed, calculate_line, line_discount}
use einvoice.Totals.Document.{calculate_document_totals}
use einvoice.Totals.ItemTotal.{as_tax, estimate-money, additive_sum, deductible_sum}
use einvoice.Totals.DocumentSums.{MoneyLine, as_line, sum_of, calculate_document_totals-money}
use einvoice.Totals.DocumentSums.TaxMap.{tax_sum}
use einvoice.Totals.NoVat.{no_vat, no_vat_computed, calculate_line-no_vat}
use einvoice.Totals.Returning.{calculate_line_returns}
use einvoice.Totals.Consistency.{same_code-same_amount}

run : Unit {0}
unfolding calculate_line line_discount estimate_eta_item_total compute_tax_amounts computed_tax
    display_rate fixed_loop fixed_step fee_loop fee_step by_code set_missing set_amount
    tax_amount_from rest_loop rest_step add_taxes add_tax map_get map_set map_has format_money mul
    add sub read money find_duplicate_tax_types eta_tax_direction is_fixed_amount_tax_type
    is_taxable_fee_tax_type is_non_taxable_fee_tax_type normalize_tax_type_code trim to_upper ◌+ℤ◌
    ◌-ℤ◌
run = tt

abbrev tax : Text → Text → LineTaxInput
tax t r = record { tax_type = t; sub_type = lit "V009"; rate = r; amount = none }

abbrev computed : Text → Text → Text → EtaTaxDirection → LineTaxComputed
computed t r a d = record {
  tax_type = t;
  sub_type = lit "V009";
  rate = r;
  amount = a;
  direction = d;
}

abbrev line : List LineTaxInput → LineInput
line taxes = record {
  description = lit "item";
  item_type = lit "GS1";
  item_code = lit "1";
  unit_type = lit "EA";
  quantity = lit "2";
  unit_price = lit "50";
  discount_amount = none;
  discount_rate = none;
  taxes = taxes;
  items_discount = none;
  value_difference = none;
  currency_sold = none;
  amount_egp = none;
  amount_sold = none;
  currency_exchange_rate = none;
  internal_code = none;
  weight_unit_type = none;
  weight_quantity = none;
}

abbrev vat_line : LineInput
vat_line = line (tax (lit "T1") (lit "14") ∷ tax (lit "T4") (lit "1") ∷ [])

-- VAT of 14 % and withholding of 1 % on 100.00: the total is 113.00.
abbrev vat_line_computed : LineComputed
vat_line_computed = record {
  sales_total = lit "100.00";
  discount = lit "0.00";
  net_total = lit "100.00";
  tax_amounts =
      computed (lit "T1") (lit "14") (lit "14.00") additive
      ∷ computed (lit "T4") (lit "1") (lit "1.00") deductible
      ∷ [];
  additive_tax_total = lit "14.00";
  deductible_tax_total = lit "1.00";
  total = lit "113.00";
  items_discount = lit "0.00";
  value_difference = lit "0.00";
  total_taxable_fees = lit "0.00";
}

vat_line_run : calculate_line vat_line ≡ ok vat_line_computed
unfolding run
vat_line_run = refl

-- The same VAT, spelled in two ways on one line, passes the check and is counted twice.
abbrev twice_line : LineInput
twice_line = line (tax (lit "T1") (lit "14") ∷ tax (lit "t1") (lit "14") ∷ [])

abbrev twice_computed : LineComputed
twice_computed = record {
  sales_total = lit "100.00";
  discount = lit "0.00";
  net_total = lit "100.00";
  tax_amounts =
      computed (lit "T1") (lit "14") (lit "14.00") additive
      ∷ computed (lit "t1") (lit "14") (lit "14.00") additive
      ∷ [];
  additive_tax_total = lit "28.00";
  deductible_tax_total = lit "0.00";
  total = lit "128.00";
  items_discount = lit "0.00";
  value_difference = lit "0.00";
  total_taxable_fees = lit "0.00";
}

twice_run : calculate_line twice_line ≡ ok twice_computed
unfolding run
twice_run = refl

same_code-same_amount_example :
    (a : Text) × All
      (λ x. normalize_tax_type_code x.tax_type ≡ lit "T1" → x.amount ≡ a)
      twice_computed.tax_amounts
same_code-same_amount_example = same_code-same_amount twice_line twice_computed (lit "T1") twice_run

calculate_line_returns_example : (c : LineComputed) × (calculate_line vat_line ≡ ok c)
unfolding run
calculate_line_returns_example =
    calculate_line_returns vat_line refl (pos 20000, refl) (pos 500000, refl) (λ a e. cc)
      (pos 0, refl) (pos 0, refl)
      (record { fixed = λ e. cc; rate = λ e. cc }, (record { fixed = λ e. cc; rate = λ e. cc }, tt))

estimate-money_example :
    estimate_eta_item_total
      (money (pos 10000))
      (some (money (pos 50)))
      (map as_tax ((lit "T1", pos 1400) ∷ (lit "T4", pos 100) ∷ []))
    ≡ ok (record {
      net_total = money (pos 10000);
      items_discount = money (pos 50);
      additive_tax_total = money (additive_sum ((lit "T1", pos 1400) ∷ (lit "T4", pos 100) ∷ []));
      deductible_tax_total =
          money (deductible_sum ((lit "T1", pos 1400) ∷ (lit "T4", pos 100) ∷ []));
      total = money (
          pos 10000
          +ℤ additive_sum ((lit "T1", pos 1400) ∷ (lit "T4", pos 100) ∷ [])
          -ℤ deductible_sum ((lit "T1", pos 1400) ∷ (lit "T4", pos 100) ∷ [])
          -ℤ pos 50);
    })
estimate-money_example =
    estimate-money (pos 10000) (pos 50) ((lit "T1", pos 1400) ∷ (lit "T4", pos 100) ∷ [])
      (omega arith)

abbrev money_line : MoneyLine
money_line = record {
  base = twice_computed;
  sales = pos 10000;
  discount = pos 0;
  items = pos 0;
  net = pos 10000;
  total = pos 11400;
  taxes = (computed (lit "T1") (lit "14") (lit "") additive, pos 1400) ∷ [];
}

calculate_document_totals-money_example :
    (m : List (Text × Text)) × (calculate_document_totals
        (map as_line (money_line ∷ money_line ∷ []))
        (money (pos 5))
      ≡ ok (record {
        total_sales_amount = money (sum_of (λ l. l.sales) (money_line ∷ money_line ∷ []));
        total_discount_amount = money (sum_of (λ l. l.discount) (money_line ∷ money_line ∷ []));
        net_amount = money (sum_of (λ l. l.net) (money_line ∷ money_line ∷ []));
        total_amount = money (sum_of (λ l. l.total) (money_line ∷ money_line ∷ []) -ℤ pos 5);
        total_items_discount_amount = money (sum_of (λ l. l.items) (money_line ∷ money_line ∷ []));
        extra_discount_amount = money (pos 5);
        tax_totals = m;
      }))
    × ((k : Text)
        → or_else (map_get m k) zero_money
          ≡ money (sum_of (λ l. tax_sum k l.taxes) (money_line ∷ money_line ∷ [])))
calculate_document_totals-money_example =
    calculate_document_totals-money (money_line ∷ money_line ∷ []) (pos 5) (omega arith)

abbrev exempt_line : LineInput
exempt_line = record (line (no_vat (lit "V003") ∷ [])) { items_discount = some (lit "1.50") }

calculate_line-no_vat_example :
    (c : LineComputed) × (calculate_line exempt_line ≡ ok c)
    × (c.tax_amounts ≡ no_vat_computed (lit "V003") ∷ [])
    × (c.additive_tax_total ≡ zero_money)
    × (c.total ≡ money (pos 10000 -ℤ pos 0 -ℤ pos 150))
unfolding run
calculate_line-no_vat_example =
    calculate_line-no_vat exempt_line (lit "V003") (pos 10000) (pos 0) (pos 150) (pos 0) refl refl
      refl refl refl (omega arith)
