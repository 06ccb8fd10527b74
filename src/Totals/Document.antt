-- ===== src/Totals/Document.antt =====
-- `calculateDocumentTotals` of packages/eta-core/src/calculate-totals.ts.
use einvoice.Prelude.{List, [], ◌∷◌, Text, ok, ◌>>=◌}
use einvoice.Money.{Numerics, Calc, zero_money, format_money, add, sub}
use einvoice.Totals.{LineTaxComputed, or_else}
use einvoice.Totals.Maps.{map_get, map_set}
use einvoice.Totals.Line.{LineComputed}

pub record DocumentTotals : Type 0 where
  pub total_sales_amount : Text
  pub total_discount_amount : Text
  pub net_amount : Text
  pub total_amount : Text
  pub total_items_discount_amount : Text
  pub extra_discount_amount : Text
  -- The type and the amount of each tax, in the order in which the types first appear.
  pub tax_totals : List (Text × Text)

-- The variables of the loop over the lines.
pub record Sums : Type 0 where
  pub sales : Text
  pub discounts : Text
  pub items_discounts : Text
  pub net : Text
  pub line_totals : Text
  pub tax_map : List (Text × Text)

abbrev pub no_sums : Sums
no_sums = record {
  sales = zero_money;
  discounts = zero_money;
  items_discounts = zero_money;
  net = zero_money;
  line_totals = zero_money;
  tax_map = [];
}

module _ ⦃n : Numerics⦄ where
  unfoldable pub add_line_tax : List (Text × Text) → LineTaxComputed → Calc (List (Text × Text))
  add_line_tax m t =
      add (or_else (map_get m t.tax_type) zero_money) t.amount >>= λ v. ok (map_set m t.tax_type v)

  unfoldable pub add_line_taxes :
      List (Text × Text) → List LineTaxComputed → Calc (List (Text × Text))
  add_line_taxes m [] = ok m
  add_line_taxes m (t ∷ ts) = add_line_tax m t >>= λ m'. add_line_taxes m' ts

  unfoldable pub add_line : Sums → LineComputed → Calc Sums
  add_line s line = do
    sales ← add s.sales line.sales_total
    discounts ← add s.discounts line.discount
    items ← add s.items_discounts line.items_discount
    net ← add s.net line.net_total
    totals ← add s.line_totals line.total
    taxes ← add_line_taxes s.tax_map line.tax_amounts
    ok (record {
      sales = sales;
      discounts = discounts;
      items_discounts = items;
      net = net;
      line_totals = totals;
      tax_map = taxes;
    })

  unfoldable pub add_lines : Sums → List LineComputed → Calc Sums
  add_lines s [] = ok s
  add_lines s (l ∷ ls) = add_line s l >>= λ s'. add_lines s' ls

  unfoldable pub calculate_document_totals : List LineComputed → Text → Calc DocumentTotals
  calculate_document_totals lines extra_discount = do
    extra ← format_money extra_discount
    s ← add_lines no_sums lines
    total ← sub s.line_totals extra
    ok (record {
      total_sales_amount = s.sales;
      total_discount_amount = s.discounts;
      net_amount = s.net;
      total_amount = total;
      total_items_discount_amount = s.items_discounts;
      extra_discount_amount = extra;
      tax_totals = s.tax_map;
    })
