-- ===== src/Totals.antt =====
-- packages/eta-core/src/calculate-totals.ts: the data of a line, ETA's item-total equation and the
-- amounts of the taxes of a line, in ETA's dependency order.
pub mod Line
pub mod Document
pub mod Maps
pub mod ItemTotal
pub mod DocumentSums
pub mod Returning
pub mod Consistency
pub mod NoVat
mod Tests
use einvoice.Prelude.{
  ◌≡◌, Bool, true, false, not, ◌&&◌, ◌||◌, Option, none, some, List, [], ◌∷◌, map, Text, lit,
  text_eq, any, Unicode, ok, thrown, ◌>>=◌, traverse, ◌==◌, if◌then◌else◌,
}
use einvoice.Money.{Numerics, Calc, fixed_amount_required, zero_money, format_money, add, sub, mul}
use einvoice.Tax.{
  LineTaxInput, EtaTaxDirection, additive, deductible, eta_tax_direction, is_fixed_amount_tax_type,
  is_taxable_fee_tax_type, is_non_taxable_fee_tax_type, normalize_tax_type_code,
}
use einvoice.Totals.Maps.{map_get, map_set, map_has}

pub record LineTaxComputed : Type 0 where
  pub tax_type : Text
  pub sub_type : Text
  pub rate : Text
  pub amount : Text
  pub direction : EtaTaxDirection

-- A tax with its amount, `EtaTaxAmountLike`.
pub record EtaTaxAmount : Type 0 where
  pub tax_type : Text
  pub amount : Text

pub record EtaItemTotalBreakdown : Type 0 where
  pub net_total : Text
  pub items_discount : Text
  pub additive_tax_total : Text
  pub deductible_tax_total : Text
  pub total : Text

-- `value != null && value !== ''`
abbrev pub given : Option Text → Option Text
given none = none
given (some []) = none
given (some (c ∷ s)) = some (c ∷ s)

-- `value ?? fallback`
abbrev pub or_else : Option Text → Text → Text
or_else none d = d
or_else (some t) d = t

-- `amounts.get(code) ?? '0.00'`
abbrev pub amount_of : List (Text × Text) → Text → Text
amount_of amounts code = or_else (map_get amounts code) zero_money

module _ ⦃u : Unicode⦄ ⦃n : Numerics⦄ where
  unfoldable pub tax_amount_from : LineTaxInput → Text → Calc Text
  tax_amount_from tax base =
      if is_fixed_amount_tax_type tax.tax_type
      then elim (given tax.amount) [
        | none ↦ mul base (n.percent tax.rate)
        | some a ↦ format_money a
      ]
      else mul base (n.percent tax.rate)

  unfoldable pub display_rate : Text → Calc Text
  display_rate rate = if any (λ c. c == b'.') rate then format_money rate else ok rate

  -- One round of the loop of `estimateEtaItemTotal`, on its two sums.
  unfoldable pub add_tax : Text × Text → EtaTaxAmount → Calc (Text × Text)
  add_tax (plus, minus) t = do
    amount ← format_money t.amount
    elim (eta_tax_direction t.tax_type) [
      | deductible ↦ add minus amount >>= λ m. ok (plus, m)
      | additive ↦ add plus amount >>= λ p. ok (p, minus)
    ]

  unfoldable pub add_taxes : Text × Text → List EtaTaxAmount → Calc (Text × Text)
  add_taxes sums [] = ok sums
  add_taxes sums (t ∷ ts) = add_tax sums t >>= λ s. add_taxes s ts

  unfoldable pub estimate_eta_item_total :
      Text → Option Text → List EtaTaxAmount → Calc EtaItemTotalBreakdown
  estimate_eta_item_total net items taxes = do
    net_total ← format_money net
    items_discount ← format_money (or_else items zero_money)
    sums ← add_taxes (zero_money, zero_money) taxes
    gross ← add net_total sums.0
    after ← sub gross sums.1
    total ← sub after items_discount
    ok (record {
      net_total = net_total;
      items_discount = items_discount;
      additive_tax_total = sums.0;
      deductible_tax_total = sums.1;
      total = total;
    })

  abbrev pub code_of : LineTaxInput → Text
  code_of t = normalize_tax_type_code t.tax_type

  -- The first loop of `computeTaxAmounts`: the fixed amounts.
  unfoldable pub fixed_step : List (Text × Text) → LineTaxInput → Calc (List (Text × Text))
  fixed_step amounts t =
      if is_fixed_amount_tax_type t.tax_type
      then elim (given t.amount) [
        | none ↦ thrown (fixed_amount_required t.tax_type)
        | some a ↦ format_money a >>= λ v. ok (map_set amounts (code_of t) v)
      ]
      else ok amounts

  unfoldable pub fixed_loop : List (Text × Text) → List LineTaxInput → Calc (List (Text × Text))
  fixed_loop amounts [] = ok amounts
  fixed_loop amounts (t ∷ ts) = fixed_step amounts t >>= λ m. fixed_loop m ts

  -- `amounts.set(code, taxAmountFrom(t, base))`
  unfoldable pub set_amount :
      List (Text × Text) → LineTaxInput → Text → Text → Calc (List (Text × Text))
  set_amount amounts t code base = tax_amount_from t base >>= λ v. ok (map_set amounts code v)

  -- The second loop: the fees, charged on the net total, and the sum of the taxable ones.
  unfoldable pub fee_amount :
      Text → List (Text × Text) → LineTaxInput → Text → Calc (List (Text × Text))
  fee_amount net amounts t code =
      if not (map_has amounts code)
        && (is_taxable_fee_tax_type code || is_non_taxable_fee_tax_type code)
      then set_amount amounts t code net
      else ok amounts

  unfoldable pub fee_sum : Text → Text → List (Text × Text) → Calc (List (Text × Text) × Text)
  fee_sum fees code m =
      if is_taxable_fee_tax_type code
      then (add fees (amount_of m code) >>= λ f. ok (m, f))
      else ok (m, fees)

  unfoldable pub fee_step :
      Text → List (Text × Text) × Text → LineTaxInput → Calc (List (Text × Text) × Text)
  unfolding fee_amount fee_sum
  fee_step net (amounts, fees) t =
      fee_amount net amounts t (code_of t) >>= λ m. fee_sum fees (code_of t) m

  unfoldable pub fee_loop :
      Text → List (Text × Text) × Text → List LineTaxInput → Calc (List (Text × Text) × Text)
  fee_loop net s [] = ok s
  fee_loop net s (t ∷ ts) = fee_step net s t >>= λ s'. fee_loop net s' ts

  -- `new Map(taxes.map((t) => [codeOf(t), t])).get(code)`: the last tax of that code.
  unfoldable pub by_code : List LineTaxInput → Text → Option LineTaxInput
  by_code [] code = none
  by_code (t ∷ ts) code = elim (by_code ts code) [
    | some later ↦ some later
    | none ↦ if text_eq (code_of t) code then some t else none
  ]

  -- `if (t && !amounts.has(code)) amounts.set(code, taxAmountFrom(t, base))`
  unfoldable pub set_missing :
      List (Text × Text) → Option LineTaxInput → Text → Calc Text → Calc (List (Text × Text))
  set_missing amounts none code base = ok amounts
  set_missing amounts (some t) code base =
      if map_has amounts code then ok amounts else (base >>= λ b. set_amount amounts t code b)

  -- The last loop: withholding on the net total after the items discount, the rest on the fee base.
  unfoldable pub rest_step :
      Text → Text → Text → List (Text × Text) → LineTaxInput → Calc (List (Text × Text))
  rest_step net items fee_base amounts t =
      if map_has amounts (code_of t)
      then ok amounts
      else if text_eq (code_of t) (lit "T4")
      then (sub net items >>= λ base. set_amount amounts t (code_of t) base)
      else set_amount amounts t (code_of t) fee_base

  unfoldable pub rest_loop :
      Text → Text → Text → List (Text × Text) → List LineTaxInput → Calc (List (Text × Text))
  rest_loop net items fee_base amounts [] = ok amounts
  rest_loop net items fee_base amounts (t ∷ ts) =
      rest_step net items fee_base amounts t >>= λ m. rest_loop net items fee_base m ts

  unfoldable pub computed_tax : List (Text × Text) → LineTaxInput → Calc LineTaxComputed
  computed_tax amounts t = display_rate t.rate >>= λ r. ok (record {
    tax_type = t.tax_type;
    sub_type = t.sub_type;
    rate = r;
    amount = amount_of amounts (code_of t);
    direction = eta_tax_direction t.tax_type;
  })

  -- The base of T1: the fee base with the table taxes T3 and T2.
  abbrev pub vat_base : Text → List (Text × Text) → Calc Text
  vat_base fee_base amounts =
      add fee_base (amount_of amounts (lit "T3")) >>= λ b. add b (amount_of amounts (lit "T2"))

  -- `computeTaxAmounts`: the taxes with their amounts, and the sum of the taxable fees.
  unfoldable pub compute_tax_amounts :
      List LineTaxInput → Text → Text → Text → Calc (List LineTaxComputed × Text)
  compute_tax_amounts taxes net items difference = do
    fixed ← fixed_loop [] taxes
    charged ← fee_loop net (fixed, zero_money) taxes
    with_fees ← add net charged.1
    fee_base ← add with_fees difference
    with_t2 ←
        set_missing charged.0 (by_code taxes (lit "T2")) (lit "T2")
          (add fee_base (amount_of charged.0 (lit "T3")))
    with_t1 ← set_missing with_t2 (by_code taxes (lit "T1")) (lit "T1") (vat_base fee_base with_t2)
    amounts ← rest_loop net items fee_base with_t1 taxes
    computed ← traverse (computed_tax amounts) taxes
    ok (computed, charged.1)
