-- ===== src/Totals/NoVat.antt =====
-- A line whose only tax is VAT at the rate 0, as `zeroRatedTax` and `exemptTax` of
-- packages/eta-core/src/tax-modes.ts make it, in packages/eta-core/src/calculate-totals.ts.
use einvoice.Prelude.{
  ◌+◌, ◌<◌, ◌≡◌, refl, ◌∙◌, ap, none, some, [], ◌∷◌, Text, lit, Unicode, ok, ℤ, pos, negsuc, ◌+ℤ◌,
  ◌-ℤ◌, size, size--ℤ, size-+ℤ, +ℤ_zero, arith, to_upper, trim,
}
use einvoice.Money.{
  Numerics, money, money_zero, zero_money, precision, decimal, format_money, sub-money, add, mul,
  add-money,
}
use einvoice.Tax.{
  LineTaxInput, find_duplicate_tax_types, duplicates_loop, additive, normalize_tax_type_code,
  eta_tax_direction, is_fixed_amount_tax_type, is_taxable_fee_tax_type, is_non_taxable_fee_tax_type,
}
use einvoice.Totals.{
  LineTaxComputed, EtaItemTotalBreakdown, estimate_eta_item_total, or_else, tax_amount_from,
  display_rate, fixed_step, fixed_loop, set_amount, fee_amount, fee_sum, fee_step, fee_loop,
  by_code, set_missing, rest_step, rest_loop, computed_tax, compute_tax_amounts,
}
use einvoice.Totals.Line.{
  LineInput, LineComputed, line_discount, as_amount, line_of, calculate_line,
}
use einvoice.Totals.ItemTotal.{estimate-money}
use einvoice.Totals.Maps.{map_get, map_set, map_has}

abbrev pub no_vat : Text → LineTaxInput
no_vat sub_type = record { tax_type = lit "T1"; sub_type = sub_type; rate = lit "0"; amount = none }

abbrev pub no_vat_computed : Text → LineTaxComputed
no_vat_computed sub_type = record {
  tax_type = lit "T1";
  sub_type = sub_type;
  rate = lit "0";
  amount = zero_money;
  direction = additive;
}

minus_zero : (a : ℤ) → a -ℤ pos 0 ≡ a
unfolding ◌-ℤ◌
minus_zero (pos k) = ground arith
minus_zero (negsuc k) = ground arith

module _ ⦃u : Unicode⦄ ⦃n : Numerics⦄ where
  add-zero : (a : ℤ) → size a < precision → add (money a) zero_money ≡ ok (money a)
  add-zero a h =
      rw (← money_zero) (
        add-money a (pos 0) (omega (arith, size-+ℤ a (pos 0))) ∙ ap (λ x. ok (money x)) (+ℤ_zero a))

  mul-percent_zero : (a : ℤ) → mul (money a) (n.percent (lit "0")) ≡ ok zero_money
  unfolding mul decimal
  mul-percent_zero a =
      rw (n.parse-money a)
        (rw (n.parse-percent_zero) (rw (n.to_fixed2-times_zero a) (ap ok money_zero)))

  compute_no_vat :
      (sub_type : Text) (net items difference : ℤ)
      → size net + size difference < precision
      → compute_tax_amounts (no_vat sub_type ∷ []) (money net) (money items) (money difference)
        ≡ ok (no_vat_computed sub_type ∷ [], zero_money)
  unfolding compute_tax_amounts fixed_loop fixed_step fee_loop fee_step fee_amount fee_sum by_code
      set_missing rest_loop rest_step computed_tax display_rate set_amount tax_amount_from map_get
      map_set map_has normalize_tax_type_code eta_tax_direction is_fixed_amount_tax_type
      is_taxable_fee_tax_type is_non_taxable_fee_tax_type to_upper trim
  compute_no_vat s net items difference h =
      let small = size-+ℤ net difference in
      rw (add-zero net (omega arith)) (
        rw (add-money net difference (omega arith)) (
          rw (add-zero (net +ℤ difference) (omega arith)) (
            rw (add-zero (net +ℤ difference) (omega arith))
              (rw (mul-percent_zero (net +ℤ difference)) refl))))

  no_vat_unique : (sub_type : Text) → find_duplicate_tax_types (no_vat sub_type ∷ []) ≡ []
  unfolding find_duplicate_tax_types duplicates_loop trim
  no_vat_unique s = refl

  abbrev no_vat_breakdown : ℤ → ℤ → EtaItemTotalBreakdown
  no_vat_breakdown net items = record {
    net_total = money net;
    items_discount = money items;
    additive_tax_total = zero_money;
    deductible_tax_total = zero_money;
    total = money (net -ℤ items);
  }

  estimate_no_vat :
      (sub_type : Text) (net items : ℤ)
      → size net + size items < precision
      → estimate_eta_item_total
          (money net)
          (some (money items))
          (as_amount (no_vat_computed sub_type) ∷ [])
        ≡ ok (no_vat_breakdown net items)
  unfolding eta_tax_direction normalize_tax_type_code to_upper trim ◌+ℤ◌ money
  estimate_no_vat s net items h =
      estimate-money net items ((lit "T1", pos 0) ∷ []) (omega arith)
      ∙ ap (λ x. ok (record (no_vat_breakdown net items) { total = money (x -ℤ items) }))
          (ap (λ x. x -ℤ pos 0) (+ℤ_zero net) ∙ minus_zero net)

  -- On a line whose only tax is VAT at the rate 0, and whose sales total, discount, items discount
  -- and value difference come out in whole cents of fewer than 40 digits together, the tax is 0.00
  -- and the total is the sales total less the discount and the items discount, whatever the value
  -- difference.
  pub calculate_line-no_vat :
      (input : LineInput) (sub_type : Text) (sales discount items difference : ℤ)
      → input.taxes ≡ no_vat sub_type ∷ []
      → mul input.quantity input.unit_price ≡ ok (money sales)
      → line_discount input (money sales) ≡ ok (money discount)
      → format_money (or_else input.items_discount zero_money) ≡ ok (money items)
      → format_money (or_else input.value_difference zero_money) ≡ ok (money difference)
      → size sales + size discount + size items + size difference < precision
      → (c : LineComputed) × (calculate_line input ≡ ok c)
        × (c.tax_amounts ≡ no_vat_computed sub_type ∷ [])
        × (c.additive_tax_total ≡ zero_money)
        × (c.total ≡ money (sales -ℤ discount -ℤ items))
  unfolding calculate_line line_discount money
  calculate_line-no_vat input s sales discount items difference et em ed ei ev h =
      let net = sales -ℤ discount in
      let small = size--ℤ sales discount in
      let line =
        line_of (money sales) (money discount) (money items) (money difference) (money net)
          (no_vat_computed s ∷ [], zero_money) (no_vat_breakdown net items) in
      (
        line,
        rw et (
            rw (no_vat_unique s) (
              rw em (
                rw ed (
                  rw ei (
                    rw ev (
                      rw (sub-money sales discount (omega arith)) (
                        rw (compute_no_vat s net items difference (omega arith))
                          (rw (estimate_no_vat s net items (omega arith)) refl)))))))),
        refl,
        refl,
        refl,
      )
