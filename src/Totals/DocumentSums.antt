-- ===== src/Totals/DocumentSums.antt =====
-- `calculateDocumentTotals` of packages/eta-core/src/calculate-totals.ts on amounts in whole cents.
pub mod TaxMap
mod Lines
mod InCents
pub use Lines.*
use einvoice.Prelude.{
  ℕ, ◌+◌, ◌≤◌, ◌<◌, ◌≡◌, refl, ◌∙◌, ap, sym, subst, List, [], ◌∷◌, map, Text, ok, arith, ℤ, pos,
  ◌+ℤ◌, ◌-ℤ◌, size, size-+ℤ, size--ℤ, +ℤ_zero, zero_+ℤ, +ℤ_assoc,
}
use einvoice.Money.{
  Numerics, money, money_zero, zero_money, precision, add-money, sub-money, format_money-money,
}
use einvoice.Totals.{LineTaxComputed, or_else}
use einvoice.Totals.Maps.{map_get}
use einvoice.Totals.Line.{LineComputed}
use einvoice.Totals.Document.{Sums, no_sums, add_line, add_lines, calculate_document_totals}
use einvoice.Totals.DocumentSums.TaxMap.{
  as_computed, tax_sizes, tax_sum, Holds, Holds-nil, size-tax_sum, add_line_taxes-money,
}
use einvoice.Totals.DocumentSums.InCents.{
  Running, sums_of, plus_line, Within, after, totals_of, after-nil, after-cons, Within-plus_line,
  start, start-Within, sums_of-start, after-start,
}

module _ ⦃n : Numerics⦄ where
  add_line-money :
      (r : Running) (m : List (Text × Text)) (bound : ℕ) (l : MoneyLine)
      → Holds m r.taxes
      → Within bound r
      → bound + weight l < precision
      → (m' : List (Text × Text)) × (add_line (sums_of r m) (as_line l)
          ≡ ok (sums_of (plus_line r l) m'))
        × Holds m' (plus_line r l).taxes
  unfolding add_line
  add_line-money r m bound l h w q =
      let (m', e, h') = add_line_taxes-money m r.taxes bound l.taxes h w.taxes (omega arith) in
      (
        m',
        rw (add-money r.sales l.sales (omega (arith, w.sales, size-+ℤ r.sales l.sales))) (
            rw
              (add-money r.discounts l.discount
                (omega (arith, w.discounts, size-+ℤ r.discounts l.discount)))
              (rw (add-money r.items l.items (omega (arith, w.items, size-+ℤ r.items l.items))) (
                rw (add-money r.net l.net (omega (arith, w.net, size-+ℤ r.net l.net))) (
                  rw
                    (add-money r.totals l.total (omega (arith, w.totals, size-+ℤ r.totals l.total)))
                    (rw e refl))))),
        h',
      )

  -- What the loop over the lines does to sums that hold the numbers of `r`.
  abbrev SumsUp : Running → List (Text × Text) → List MoneyLine → Type 0
  SumsUp r m ls =
      (m' : List (Text × Text)) × (add_lines (sums_of r m) (map as_line ls)
        ≡ ok (sums_of (after r ls) m'))
      × Holds m' (after r ls).taxes

  add_lines-money :
      (r : Running) (m : List (Text × Text)) (bound : ℕ) (ls : List MoneyLine)
      → Holds m r.taxes
      → Within bound r
      → bound + weights ls < precision
      → SumsUp r m ls
  unfolding add_lines
  add_lines-money r m bound [] h w q = (
    m,
    ap (λ x. ok (sums_of x m)) (sym (after-nil r)),
    subst (λ x. Holds m x.taxes) (sym (after-nil r)) h,
  )
  add_lines-money r m bound (l ∷ ls) h w q =
      let (m1, e1, h1) = add_line-money r m bound l h w (omega arith) in
      let (m2, e2, h2) =
        add_lines-money (plus_line r l) m1 (bound + weight l) ls h1 (Within-plus_line bound r l w)
          (omega arith) in
      (
        m2,
        rw e1 (e2 ∙ ap (λ x. ok (sums_of x m2)) (after-cons r l ls)),
        subst (λ x. Holds m2 x.taxes) (after-cons r l ls) h2,
      )

module _ ⦃n : Numerics⦄ where
  add_lines_from_start :
      (ls : List MoneyLine)
      → weights ls < precision
      → (m : List (Text × Text)) × (add_lines no_sums (map as_line ls)
          ≡ ok (sums_of (totals_of ls) m))
        × Holds m (totals_of ls).taxes
  add_lines_from_start ls q =
      let (m, e, h) = add_lines-money start [] 0 ls Holds-nil start-Within (omega arith) in
      (
        m,
        rw (← sums_of-start) (e ∙ ap (λ x. ok (sums_of x m)) (after-start ls)),
        subst (λ x. Holds m x.taxes) (after-start ls) h,
      )

  -- On lines and an extra discount in whole cents, whose sizes add up to less than 40 digits, the
  -- totals are computed and are the exact sums: of the sales, the discounts, the items discounts
  -- and the net totals; the total amount is the sum of the line totals less the extra discount; and
  -- the tax totals give each tax type the sum of its amounts over all lines (0.00 for a type that
  -- is absent).
  pub calculate_document_totals-money :
      (ls : List MoneyLine) (extra : ℤ)
      → weights ls + size extra < precision
      → (m : List (Text × Text)) × (calculate_document_totals (map as_line ls) (money extra)
          ≡ ok (record {
            total_sales_amount = money (sum_of (λ l. l.sales) ls);
            total_discount_amount = money (sum_of (λ l. l.discount) ls);
            net_amount = money (sum_of (λ l. l.net) ls);
            total_amount = money (sum_of (λ l. l.total) ls -ℤ extra);
            total_items_discount_amount = money (sum_of (λ l. l.items) ls);
            extra_discount_amount = money extra;
            tax_totals = m;
          }))
        × ((k : Text)
            → or_else (map_get m k) zero_money ≡ money (sum_of (λ l. tax_sum k l.taxes) ls))
  unfolding calculate_document_totals
  calculate_document_totals-money ls extra q =
      let (m, e, h) = add_lines_from_start ls (omega arith) in
      let t = sum_of (λ l. l.total) ls in
      (
        m,
        rw (format_money-money extra) (
            rw e (rw (sub-money t extra (omega (arith, size-sum_total ls, size--ℤ t extra))) refl)),
        h,
      )
