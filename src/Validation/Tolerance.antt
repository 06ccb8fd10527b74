-- ===== src/Validation/Tolerance.antt =====
-- ETA's tolerance in `checkEtaTotals` of packages/eta-core/src/local-validator.ts: which line totals
-- it reports.
use einvoice.Prelude.{
  ℕ, ◌+◌, ◌≤◌, ◌<◌, ◌≡◌, refl, some, none, List, [], ◌∷◌, map, Text, Unicode, ok, ℤ, ◌+ℤ◌, ◌-ℤ◌,
  size, size-+ℤ, size--ℤ, arith, ltb, if◌then◌else◌, Bool-cases, inl, inr,
}
use einvoice.Money.{Numerics, money, precision, double_precision, sub-money, add-money}
use einvoice.Json.{obj, Fields}
use einvoice.Totals.{LineTaxComputed, EtaItemTotalBreakdown}
use einvoice.Totals.Line.{as_amount}
use einvoice.Totals.ItemTotal.{
  as_tax, sizes, additive_sum, deductible_sum, estimate-money, size-sums,
}
use einvoice.Totals.DocumentSums.{MoneyLine, as_line, weight}
use einvoice.Totals.DocumentSums.TaxMap.{as_computed, tax_sizes}
use einvoice.Builder.Lines.{Sends}
use einvoice.Validation.{ValidationIssue, beyond_tolerance}
use einvoice.Validation.Totals.{check_line, check_read_line, item_mismatch, mismatch_if}
use einvoice.Validation.Recomputed.{checked, to_amount-money, read_taxes-tax_object}

-- The taxes of a line with their types.
abbrev pub typed : List (LineTaxComputed × ℤ) → List (Text × ℤ)
typed [] = []
typed ((t, a) ∷ ts) = (t.tax_type, a) ∷ typed ts

as_amount-typed :
    (ts : List (LineTaxComputed × ℤ)) → map as_amount (map as_computed ts) ≡ map as_tax (typed ts)
as_amount-typed [] = refl
as_amount-typed ((t, a) ∷ ts) = λ i. as_tax (t.tax_type, a) ∷ as_amount-typed ts i

sizes-typed : (ts : List (LineTaxComputed × ℤ)) → sizes (typed ts) ≡ tax_sizes ts
sizes-typed [] = refl
sizes-typed ((t, a) ∷ ts) = omega (arith, sizes-typed ts)

module _ ⦃u : Unicode⦄ where
  -- ETA's total of a line, in cents.
  abbrev pub eta_total : MoneyLine → ℤ
  eta_total l = l.net +ℤ additive_sum (typed l.taxes) -ℤ deductible_sum (typed l.taxes) -ℤ l.items

  -- ETA's breakdown of a line.
  abbrev pub eta_breakdown : MoneyLine → EtaItemTotalBreakdown
  eta_breakdown l = record {
    net_total = money l.net;
    items_discount = money l.items;
    additive_tax_total = money (additive_sum (typed l.taxes));
    deductible_tax_total = money (deductible_sum (typed l.taxes));
    total = money (eta_total l);
  }

  -- What is reported of a line: its total, if it differs from ETA's by more than 50 cents.
  abbrev pub reported : ℕ → MoneyLine → List ValidationIssue
  reported i l =
      if ltb 50 (size (l.total -ℤ eta_total l))
      then item_mismatch i (eta_breakdown l) (money l.total) (money (l.total -ℤ eta_total l)) ∷ []
      else []

  size-eta_total : (l : MoneyLine) → size (eta_total l) ≤ weight l
  size-eta_total l =
      let p = additive_sum (typed l.taxes) in
      let m = deductible_sum (typed l.taxes) in
      omega (
        arith,
        size-sums (typed l.taxes),
        sizes-typed l.taxes,
        size-+ℤ l.net p,
        size--ℤ (l.net +ℤ p) m,
        size--ℤ (l.net +ℤ p -ℤ m) l.items,
      )

module _ ⦃n : Numerics⦄ where
  beyond_tolerance-money :
      (a b : ℤ)
      → size a + size b < double_precision
      → beyond_tolerance (money a) (money b)
        ≡ ok (if ltb 50 (size (b -ℤ a)) then some (money (b -ℤ a)) else none)
  unfolding beyond_tolerance
  beyond_tolerance-money a b h =
      rw (sub-money b a (omega (arith, size--ℤ b a)))
        (rw (n.is_beyond_half-money (b -ℤ a) (omega (arith, size--ℤ b a))) refl)

module _ ⦃u : Unicode⦄ ⦃n : Numerics⦄ where
  mismatch_if-reported :
      (i : ℕ) (l : MoneyLine)
      → mismatch_if
          (if ltb 50 (size (l.total -ℤ eta_total l))
            then some (money (l.total -ℤ eta_total l))
            else none)
          (item_mismatch i (eta_breakdown l) (money l.total))
        ≡ reported i l
  mismatch_if-reported i l = elim (Bool-cases (ltb 50 (size (l.total -ℤ eta_total l)))) [
    | inl e ↦ rw e refl
    | inr e ↦ rw e refl
  ]

  check_read_line-reported :
      (x y : ℤ) (i : ℕ) (l : MoneyLine) (fs : Fields n.Double)
      → Sends (as_line l) fs
      → weight l + weight l < double_precision
      → size x + size y + weight l < precision
      → check_read_line (checked x y) i fs (money l.net) (money l.total)
        ≡ ok (record (checked (x +ℤ l.total) (y +ℤ l.net)) { issues = reported i l })
  unfolding check_read_line
  check_read_line-reported x y i l fs sends h q = rw sends.taxes (
      rw (read_taxes-tax_object l.taxes (omega arith)) (
        rw sends.items_discount (
          rw (to_amount-money l.items (omega arith)) (
            rw (as_amount-typed l.taxes) (
              rw (estimate-money l.net l.items (typed l.taxes) (omega (arith, sizes-typed l.taxes)))
                (rw (beyond_tolerance-money (eta_total l) l.total (omega (arith, size-eta_total l)))
                  (rw (add-money x l.total (omega (arith, size-+ℤ x l.total))) (
                    rw (add-money y l.net (omega (arith, size-+ℤ y l.net)))
                      (rw (mismatch_if-reported i l) refl)))))))))

  -- The check of a line whose amounts are whole cents of less than 15 digits in all, after lines
  -- with no issue, reports the line's total exactly if it differs from ETA's (the net total, plus
  -- the taxes that raise it, less withholding and the items discount) by more than 50 cents, with
  -- the two totals and their difference; and it adds the line to the sums.
  pub check_line-reported :
      (x y : ℤ) (i : ℕ) (l : MoneyLine) (fs : Fields n.Double)
      → Sends (as_line l) fs
      → weight l + weight l < double_precision
      → size x + size y + weight l < precision
      → check_line (checked x y) i (obj fs)
        ≡ ok (record (checked (x +ℤ l.total) (y +ℤ l.net)) { issues = reported i l })
  unfolding check_line
  check_line-reported x y i l fs sends h q = rw sends.net_total (
      rw (to_amount-money l.net (omega arith)) (
        rw sends.total (
          rw (to_amount-money l.total (omega arith))
            (check_read_line-reported x y i l fs sends h q))))
