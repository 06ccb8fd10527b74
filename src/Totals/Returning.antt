-- ===== src/Totals/Returning.antt =====
-- When `calculateLine` of packages/eta-core/src/calculate-totals.ts returns.
pub mod Amounts
pub mod Taxes
use einvoice.Prelude.{
  ◌≡◌, refl, Option, none, some, List, [], ◌∷◌, map, Text, Unicode, ok, ◌>>=◌, Gives, gives,
  Gives-bind, Gives-eq_ok, All, inl, inr, ◌⊎◌, Option-cases,
}
use einvoice.Money.{Numerics, Calc, zero_money, add}
use einvoice.Tax.{
  find_duplicate_tax_types, Direction-cases, additive, deductible, eta_tax_direction,
}
use einvoice.Totals.{
  LineTaxComputed, EtaTaxAmount, given, or_else, add_tax, add_taxes, estimate_eta_item_total,
}
use einvoice.Totals.Line.{LineInput, LineComputed, as_amount, line_discount, calculate_line}
use einvoice.Totals.Returning.Amounts.{
  Parses, zero-Parses, format_money-Gives, add-Gives, sub-Gives, mul-Gives,
}
use einvoice.Totals.Returning.Taxes.{IsComputable, compute_tax_amounts-Gives}

module _ ⦃u : Unicode⦄ ⦃n : Numerics⦄ where
  abbrev SumsParse : Text × Text → Type 0
  SumsParse (p, m) = Parses p × Parses m

  add_tax-Gives :
      (s : Text × Text) (t : EtaTaxAmount)
      → SumsParse s
      → Parses t.amount
      → Gives SumsParse (add_tax s t)
  unfolding add_tax
  add_tax-Gives (p, m) t (hp, hm) h = Gives-bind _ (format_money-Gives t.amount h) λ a ha.
      elim (Direction-cases (eta_tax_direction t.tax_type)) [
        | inr e ↦ rw e (Gives-bind _ (add-Gives m a hm ha) λ x hx. gives (p, x) (hp, hx))
        | inl e ↦ rw e (Gives-bind _ (add-Gives p a hp ha) λ x hx. gives (x, m) (hx, hm))
      ]

  add_taxes-Gives :
      (s : Text × Text) (ts : List EtaTaxAmount)
      → SumsParse s
      → All (λ t. Parses t.amount) ts
      → Gives SumsParse (add_taxes s ts)
  unfolding add_taxes
  add_taxes-Gives s [] h k = gives s h
  add_taxes-Gives s (t ∷ ts) h (k, ks) =
      Gives-bind _ (add_tax-Gives s t h k) λ s' h'. add_taxes-Gives s' ts h' ks

  estimate-Gives :
      (net : Text) (items : Option Text) (ts : List EtaTaxAmount)
      → Parses net
      → Parses (or_else items zero_money)
      → All (λ t. Parses t.amount) ts
      → Gives (λ r. Unit {0}) (estimate_eta_item_total net items ts)
  unfolding estimate_eta_item_total
  estimate-Gives net items ts p q h = Gives-bind _ (format_money-Gives net p) λ a ha.
      Gives-bind _ (format_money-Gives (or_else items zero_money) q) λ b hb.
        Gives-bind _ (add_taxes-Gives (zero_money, zero_money) ts (zero-Parses, zero-Parses) h)
          λ s hs. Gives-bind _ (add-Gives a s.0 ha hs.0) λ x hx.
            Gives-bind _ (sub-Gives x s.1 hx hs.1)
              λ y hy. Gives-bind _ (sub-Gives y b hy hb) λ z hz. gives _ tt

  -- A discount amount that is given can be read.
  abbrev pub DiscountParses : LineInput → Type 0
  DiscountParses input = (a : Text) → given input.discount_amount ≡ some a → Parses a

  line_discount-Gives :
      (input : LineInput) (sales : Text)
      → DiscountParses input
      → Parses sales
      → Gives Parses (line_discount input sales)
  unfolding line_discount
  line_discount-Gives input sales h p = elim (Option-cases (given input.discount_amount)) [
    | inr (a, e) ↦ rw (e, line_discount) (format_money-Gives a (h a e))
    | inl e ↦
        rw (e, line_discount)
          (elim (Option-cases (given input.discount_rate)) [
            | inr (r, e') ↦ rw e' (mul-Gives sales (n.percent r) p (n.parse-percent r))
            | inl e' ↦ rw e' (gives zero_money zero-Parses)
          ])
  ]

  All-as_amount :
      (ts : List LineTaxComputed)
      → All (λ t. Parses t.amount) ts
      → All (λ t. Parses t.amount) (map as_amount ts)
  All-as_amount [] h = tt
  All-as_amount (t ∷ ts) (p, h) = (p, All-as_amount ts h)

  calculate_line-Gives :
      (input : LineInput)
      → find_duplicate_tax_types input.taxes ≡ []
      → Parses input.quantity
      → Parses input.unit_price
      → DiscountParses input
      → Parses (or_else input.items_discount zero_money)
      → Parses (or_else input.value_difference zero_money)
      → All IsComputable input.taxes
      → Gives (λ line. Unit {0}) (calculate_line input)
  unfolding calculate_line
  calculate_line-Gives input d pq pp pd pi pv c = rw d (
      Gives-bind _ (mul-Gives input.quantity input.unit_price pq pp) λ sales hs.
        Gives-bind _ (line_discount-Gives input sales pd hs) λ discount hd.
          Gives-bind _ (format_money-Gives (or_else input.items_discount zero_money) pi) λ items hi.
            Gives-bind _ (format_money-Gives (or_else input.value_difference zero_money) pv)
              λ difference hv. Gives-bind _ (sub-Gives sales discount hs hd) λ net hn.
                Gives-bind _ (compute_tax_amounts-Gives input.taxes net items difference c hn hi hv)
                  λ taxes ht.
                    Gives-bind _
                      (estimate-Gives net (some items) (map as_amount taxes.0) hn hi
                        (All-as_amount taxes.0 ht))
                      λ b _. gives _ tt)

  -- `calculateLine` returns on every line whose taxes are all of different types and can be
  -- computed, and whose quantity, price, discount, items discount and value difference can be read.
  pub calculate_line_returns :
      (input : LineInput)
      → find_duplicate_tax_types input.taxes ≡ []
      → Parses input.quantity
      → Parses input.unit_price
      → DiscountParses input
      → Parses (or_else input.items_discount zero_money)
      → Parses (or_else input.value_difference zero_money)
      → All IsComputable input.taxes
      → (c : LineComputed) × (calculate_line input ≡ ok c)
  calculate_line_returns input d pq pp pd pi pv c =
      let (line, e, _) = Gives-eq_ok (calculate_line-Gives input d pq pp pd pi pv c) in (line, e)
