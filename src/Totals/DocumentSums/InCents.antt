-- ===== src/Totals/DocumentSums/InCents.antt =====
-- The running sums of `calculateDocumentTotals` of packages/eta-core/src/calculate-totals.ts, in
-- whole cents.
use einvoice.Prelude.{
  ℕ, ◌+◌, ◌≤◌, ◌≡◌, List, [], ◌∷◌, Text, arith, ℤ, pos, ◌+ℤ◌, size, size-+ℤ, +ℤ_zero, zero_+ℤ,
  +ℤ_assoc,
}
use einvoice.Money.{money, money_zero}
use einvoice.Totals.Document.{Sums, no_sums}
use einvoice.Totals.DocumentSums.TaxMap.{tax_sum, size-tax_sum}
use einvoice.Totals.DocumentSums.Lines.{MoneyLine, sum_of, weight}

-- The five running sums in cents, and the tax totals.
pub record Running : Type 0 where
  pub sales : ℤ
  pub discounts : ℤ
  pub items : ℤ
  pub net : ℤ
  pub totals : ℤ
  pub taxes : Text → ℤ

abbrev pub sums_of : Running → List (Text × Text) → Sums
sums_of r m = record {
  sales = money r.sales;
  discounts = money r.discounts;
  items_discounts = money r.items;
  net = money r.net;
  line_totals = money r.totals;
  tax_map = m;
}

abbrev pub plus_line : Running → MoneyLine → Running
plus_line r l = record {
  sales = r.sales +ℤ l.sales;
  discounts = r.discounts +ℤ l.discount;
  items = r.items +ℤ l.items;
  net = r.net +ℤ l.net;
  totals = r.totals +ℤ l.total;
  taxes = λ k. r.taxes k +ℤ tax_sum k l.taxes;
}

-- No sum exceeds the bound.
pub record Within (bound : ℕ) (r : Running) : Type 0 where
  pub sales : size r.sales ≤ bound
  pub discounts : size r.discounts ≤ bound
  pub items : size r.items ≤ bound
  pub net : size r.net ≤ bound
  pub totals : size r.totals ≤ bound
  pub taxes : (k : Text) → size (r.taxes k) ≤ bound

-- The sums after all lines.
abbrev pub after : Running → List MoneyLine → Running
after r ls = record {
  sales = r.sales +ℤ sum_of (λ l. l.sales) ls;
  discounts = r.discounts +ℤ sum_of (λ l. l.discount) ls;
  items = r.items +ℤ sum_of (λ l. l.items) ls;
  net = r.net +ℤ sum_of (λ l. l.net) ls;
  totals = r.totals +ℤ sum_of (λ l. l.total) ls;
  taxes = λ k. r.taxes k +ℤ sum_of (λ l. tax_sum k l.taxes) ls;
}

abbrev pub totals_of : List MoneyLine → Running
totals_of ls = record {
  sales = sum_of (λ l. l.sales) ls;
  discounts = sum_of (λ l. l.discount) ls;
  items = sum_of (λ l. l.items) ls;
  net = sum_of (λ l. l.net) ls;
  totals = sum_of (λ l. l.total) ls;
  taxes = λ k. sum_of (λ l. tax_sum k l.taxes) ls;
}

pub after-nil : (r : Running) → after r [] ≡ r
after-nil r = λ i. record {
  sales = +ℤ_zero r.sales i;
  discounts = +ℤ_zero r.discounts i;
  items = +ℤ_zero r.items i;
  net = +ℤ_zero r.net i;
  totals = +ℤ_zero r.totals i;
  taxes = λ k. +ℤ_zero (r.taxes k) i;
}

pub after-cons :
    (r : Running) (l : MoneyLine) (ls : List MoneyLine)
    → after (plus_line r l) ls ≡ after r (l ∷ ls)
after-cons r l ls = λ i. record {
  sales = +ℤ_assoc r.sales l.sales (sum_of (λ m. m.sales) ls) i;
  discounts = +ℤ_assoc r.discounts l.discount (sum_of (λ m. m.discount) ls) i;
  items = +ℤ_assoc r.items l.items (sum_of (λ m. m.items) ls) i;
  net = +ℤ_assoc r.net l.net (sum_of (λ m. m.net) ls) i;
  totals = +ℤ_assoc r.totals l.total (sum_of (λ m. m.total) ls) i;
  taxes = λ k. +ℤ_assoc (r.taxes k) (tax_sum k l.taxes) (sum_of (λ m. tax_sum k m.taxes) ls) i;
}

pub Within-plus_line :
    (bound : ℕ) (r : Running) (l : MoneyLine)
    → Within bound r
    → Within (bound + weight l) (plus_line r l)
Within-plus_line bound r l w = record {
  sales = omega (arith, w.sales, size-+ℤ r.sales l.sales);
  discounts = omega (arith, w.discounts, size-+ℤ r.discounts l.discount);
  items = omega (arith, w.items, size-+ℤ r.items l.items);
  net = omega (arith, w.net, size-+ℤ r.net l.net);
  totals = omega (arith, w.totals, size-+ℤ r.totals l.total);
  taxes = λ k.
      omega (arith, w.taxes k, size-+ℤ (r.taxes k) (tax_sum k l.taxes), size-tax_sum k l.taxes);
}

abbrev pub start : Running
start = record {
  sales = pos 0;
  discounts = pos 0;
  items = pos 0;
  net = pos 0;
  totals = pos 0;
  taxes = λ k. pos 0;
}

pub start-Within : Within 0 start
start-Within = record {
  sales = omega arith;
  discounts = omega arith;
  items = omega arith;
  net = omega arith;
  totals = omega arith;
  taxes = λ k. omega arith;
}

pub sums_of-start : sums_of start [] ≡ no_sums
sums_of-start = λ i. record {
  sales = money_zero i;
  discounts = money_zero i;
  items_discounts = money_zero i;
  net = money_zero i;
  line_totals = money_zero i;
  tax_map = [];
}

pub after-start : (ls : List MoneyLine) → after start ls ≡ totals_of ls
after-start ls = λ i. record {
  sales = zero_+ℤ (sum_of (λ m. m.sales) ls) i;
  discounts = zero_+ℤ (sum_of (λ m. m.discount) ls) i;
  items = zero_+ℤ (sum_of (λ m. m.items) ls) i;
  net = zero_+ℤ (sum_of (λ m. m.net) ls) i;
  totals = zero_+ℤ (sum_of (λ m. m.total) ls) i;
  taxes = λ k. zero_+ℤ (sum_of (λ m. tax_sum k m.taxes) ls) i;
}
