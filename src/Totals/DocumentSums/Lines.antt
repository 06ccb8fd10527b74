-- ===== src/Totals/DocumentSums/Lines.antt =====
-- Computed lines in whole cents, and the sums over them.
use einvoice.Prelude.{ℕ, ◌+◌, ◌≤◌, List, [], ◌∷◌, map, arith, ℤ, pos, ◌+ℤ◌, size, size-+ℤ}
use einvoice.Money.{money}
use einvoice.Totals.{LineTaxComputed}
use einvoice.Totals.Line.{LineComputed}
use einvoice.Totals.DocumentSums.TaxMap.{as_computed, tax_sizes}

-- A computed line whose summed fields are numbers of cents; the other fields are those of `base`.
pub record MoneyLine : Type 0 where
  pub base : LineComputed
  pub sales : ℤ
  pub discount : ℤ
  pub items : ℤ
  pub net : ℤ
  pub total : ℤ
  pub taxes : List (LineTaxComputed × ℤ)

abbrev pub as_line : MoneyLine → LineComputed
as_line l = record (l.base) {
  sales_total = money l.sales;
  discount = money l.discount;
  items_discount = money l.items;
  net_total = money l.net;
  total = money l.total;
  tax_amounts = map as_computed l.taxes;
}

-- The sum of one field over the lines.
abbrev pub sum_of : (MoneyLine → ℤ) → List MoneyLine → ℤ
sum_of f [] = pos 0
sum_of f (l ∷ ls) = f l +ℤ sum_of f ls

abbrev pub weight : MoneyLine → ℕ
weight l =
    size l.sales + size l.discount + size l.items + size l.net + size l.total + tax_sizes l.taxes

abbrev pub weights : List MoneyLine → ℕ
weights [] = 0
weights (l ∷ ls) = weight l + weights ls

pub size-sum_total : (ls : List MoneyLine) → size (sum_of (λ l. l.total) ls) ≤ weights ls
size-sum_total [] = omega arith
size-sum_total (l ∷ ls) =
    omega (arith, size-sum_total ls, size-+ℤ l.total (sum_of (λ m. m.total) ls))
