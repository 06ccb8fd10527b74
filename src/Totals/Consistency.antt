-- ===== src/Totals/Consistency.antt =====
-- What a line that `calculateLine` of packages/eta-core/src/calculate-totals.ts returns has to do
-- with its input and with ETA's item-total equation.
use einvoice.Prelude.{
  ◌≡◌, refl, ◌∙◌, ap, some, List, [], ◌∷◌, map, Text, lit, Unicode, ok, traverse, Ensures,
  Ensures-bind, Ensures-ok, All,
}
use einvoice.Money.{Numerics, zero_money, format_money, add, sub, mul}
use einvoice.Tax.{LineTaxInput, find_duplicate_tax_types, normalize_tax_type_code}
use einvoice.Tax.Duplicates.{Distinct, codes, find_duplicates-nil_iff}
use einvoice.Totals.{
  LineTaxComputed, EtaItemTotalBreakdown, amount_of, or_else, display_rate, estimate_eta_item_total,
  computed_tax, fixed_loop, fee_loop, by_code, set_missing, rest_loop, vat_base,
  compute_tax_amounts,
}
use einvoice.Totals.Line.{
  LineInput, LineComputed, as_amount, check_duplicates, line_discount, calculate_line,
}

abbrev pub types_in : List LineTaxInput → List Text
types_in = map (λ t. t.tax_type)

abbrev pub types_out : List LineTaxComputed → List Text
types_out = map (λ t. t.tax_type)

module _ ⦃u : Unicode⦄ ⦃n : Numerics⦄ where
  -- Each tax carries the amount that the map has for its normalised code.
  abbrev Carries : List (Text × Text) → LineTaxComputed → Type 0
  Carries m x = x.amount ≡ amount_of m (normalize_tax_type_code x.tax_type)

  computed_tax-Ensures :
      (m : List (Text × Text)) (t : LineTaxInput)
      → Ensures (λ x. Carries m x × (x.tax_type ≡ t.tax_type)) (computed_tax m t)
  unfolding computed_tax
  computed_tax-Ensures m t = Ensures-bind (display_rate t.rate) λ r _. Ensures-ok (refl, refl)

  traverse-Ensures :
      (m : List (Text × Text)) (ts : List LineTaxInput)
      → Ensures
          (λ xs. All (Carries m) xs × (types_out xs ≡ types_in ts))
          (traverse (computed_tax m) ts)
  traverse-Ensures m [] = Ensures-ok (tt, refl)
  traverse-Ensures m (t ∷ ts) = Ensures-bind (computed_tax m t) λ x ex.
      Ensures-bind (traverse (computed_tax m) ts) λ xs exs.
        let (c, q) = (computed_tax-Ensures m t).holds x ex in
        let (cs, qs) = (traverse-Ensures m ts).holds xs exs in Ensures-ok ((c, cs), λ i. q i ∷ qs i)

  -- The result of `computeTaxAmounts`.
  abbrev FromMap : List LineTaxInput → List LineTaxComputed × Text → Type 0
  FromMap ts r = (m : List (Text × Text)) × All (Carries m) r.0 × (types_out r.0 ≡ types_in ts)

  compute-Ensures :
      (ts : List LineTaxInput) (net items difference : Text)
      → Ensures (FromMap ts) (compute_tax_amounts ts net items difference)
  unfolding compute_tax_amounts
  compute-Ensures ts net items difference = Ensures-bind (fixed_loop [] ts) λ fixed _.
      Ensures-bind (fee_loop net (fixed, zero_money) ts) λ s _.
        Ensures-bind (add net s.1) λ with_fees _. Ensures-bind (add with_fees difference) λ base _.
          Ensures-bind
            (set_missing s.0 (by_code ts (lit "T2")) (lit "T2")
              (add base (amount_of s.0 (lit "T3"))))
            λ m2 _.
              Ensures-bind (set_missing m2 (by_code ts (lit "T1")) (lit "T1") (vat_base base m2))
                λ m1 _. Ensures-bind (rest_loop net items base m1 ts) λ m _.
                  Ensures-bind (traverse (computed_tax m) ts)
                    λ xs e. let (c, q) = (traverse-Ensures m ts).holds xs e in Ensures-ok (m, c, q)

  check_duplicates-Ensures : (d : List Text) → Ensures (λ x. d ≡ []) (check_duplicates d)
  check_duplicates-Ensures [] = Ensures-ok refl
  check_duplicates-Ensures (d ∷ ds) = record { holds = λ _ e. cc }

  -- The facts about a computed line.
  pub record IsConsistent (input : LineInput) (c : LineComputed) : Type 0 where
    pub distinct : Distinct (codes input.taxes)
    pub same_types : types_out c.tax_amounts ≡ types_in input.taxes
    pub amounts : (m : List (Text × Text)) × All (Carries m) c.tax_amounts
    pub breakdown : EtaItemTotalBreakdown
    pub balances :
        estimate_eta_item_total c.net_total (some c.items_discount) (map as_amount c.tax_amounts)
        ≡ ok breakdown
    pub total : c.total ≡ breakdown.total
    pub additive : c.additive_tax_total ≡ breakdown.additive_tax_total
    pub deductible : c.deductible_tax_total ≡ breakdown.deductible_tax_total

  calculate_line-IsConsistent :
      (input : LineInput) → Ensures (IsConsistent input) (calculate_line input)
  unfolding calculate_line
  calculate_line-IsConsistent input =
      Ensures-bind (check_duplicates (find_duplicate_tax_types input.taxes)) λ x d.
        Ensures-bind (mul input.quantity input.unit_price) λ sales _.
          Ensures-bind (line_discount input sales) λ discount _.
            Ensures-bind (format_money (or_else input.items_discount zero_money)) λ items _.
              Ensures-bind (format_money (or_else input.value_difference zero_money))
                λ difference _. Ensures-bind (sub sales discount) λ net _.
                  Ensures-bind (compute_tax_amounts input.taxes net items difference) λ taxes e.
                    Ensures-bind (estimate_eta_item_total net (some items) (map as_amount taxes.0))
                      λ b eb.
                        let (m, h, q) =
                          (compute-Ensures input.taxes net items difference).holds taxes e in
                        Ensures-ok (record {
                          distinct =
                              (find_duplicates-nil_iff input.taxes).0
                                ((check_duplicates-Ensures _).holds x d);
                          same_types = q;
                          amounts = (m, h);
                          breakdown = b;
                          balances = eb;
                          total = refl;
                          additive = refl;
                          deductible = refl;
                        })

  Carries-at :
      (m : List (Text × Text)) (k : Text) (xs : List LineTaxComputed)
      → All (Carries m) xs
      → All (λ x. normalize_tax_type_code x.tax_type ≡ k → x.amount ≡ amount_of m k) xs
  Carries-at m k [] h = tt
  Carries-at m k (x ∷ xs) (c, h) = ((λ e. c ∙ ap (amount_of m) e), Carries-at m k xs h)

  pub calculate_line_consistent :
      (input : LineInput) (c : LineComputed)
      → calculate_line input ≡ ok c
      → Distinct (codes input.taxes)
        × (types_out c.tax_amounts ≡ types_in input.taxes)
        × ((b : EtaItemTotalBreakdown) × (estimate_eta_item_total c.net_total
                (some c.items_discount)
                (map as_amount c.tax_amounts)
              ≡ ok b)
            × (c.total ≡ b.total)
            × (c.additive_tax_total ≡ b.additive_tax_total)
            × (c.deductible_tax_total ≡ b.deductible_tax_total))
  calculate_line_consistent input c e =
      let r = (calculate_line-IsConsistent input).holds c e in
      (r.distinct, r.same_types, (r.breakdown, r.balances, r.total, r.additive, r.deductible))

  -- On a line that `calculateLine` returns, all taxes whose normalised codes are equal carry one
  -- and the same amount, however their types are spelled.
  pub same_code-same_amount :
      (input : LineInput) (c : LineComputed) (k : Text)
      → calculate_line input ≡ ok c
      → (a : Text) × All (λ x. normalize_tax_type_code x.tax_type ≡ k → x.amount ≡ a) c.tax_amounts
  same_code-same_amount input c k e =
      let (m, h) = ((calculate_line-IsConsistent input).holds c e).amounts in
      (amount_of m k, Carries-at m k c.tax_amounts h)
