-- ===== src/Totals/Returning/Taxes.antt =====
-- `computeTaxAmounts` of packages/eta-core/src/calculate-totals.ts returns on taxes that can be
-- computed, and every amount that it returns can be read.
use einvoice.Prelude.{
  ◌≡◌, ◌∙◌, subst, Bool, true, false, none, some, List, [], ◌∷◌, Text, lit, text_eq, any, Unicode,
  Gives, gives, Gives-bind, Gives-mono, Gives-if, traverse-Gives, All, inl, inr, Bool-cases,
  Option-cases, arith, ◌==◌, if◌then◌else◌,
}
use einvoice.Money.{Numerics, Calc, zero_money}
use einvoice.Tax.{LineTaxInput, is_fixed_amount_tax_type, is_taxable_fee_tax_type}
use einvoice.Totals.{
  given, tax_amount_from, display_rate, code_of, amount_of, fixed_step, fixed_loop, set_amount,
  fee_amount, fee_sum, fee_step, fee_loop, by_code, set_missing, rest_step, rest_loop, computed_tax,
  vat_base, compute_tax_amounts,
}
use einvoice.Totals.Maps.{map_set, map_has}
use einvoice.Totals.Returning.Amounts.{
  Parses, zero-Parses, format_money-Gives, add-Gives, sub-Gives, mul-Gives, AllParse, nil-AllParse,
  set-AllParse,
}

some_if : (b : Bool) {x y : LineTaxInput} → (if b then some x else none) ≡ some y → x ≡ y
some_if true e = ground arith
some_if false e = cc

module _ ⦃u : Unicode⦄ ⦃n : Numerics⦄ where
  -- A tax that can be computed: a fixed-amount type has an amount that can be read, and so has any
  -- rate with a point.
  pub record IsComputable (t : LineTaxInput) : Type 0 where
    pub fixed :
        is_fixed_amount_tax_type t.tax_type ≡ true
        → (a : Text) × (given t.amount ≡ some a) × Parses a
    pub rate : any (λ c. c == b'.') t.rate ≡ true → Parses t.rate

  tax_amount_from-Gives :
      (t : LineTaxInput) (base : Text)
      → IsComputable t
      → Parses base
      → Gives Parses (tax_amount_from t base)
  unfolding tax_amount_from
  tax_amount_from-Gives t base c p = elim (Bool-cases (is_fixed_amount_tax_type t.tax_type)) [
    | inl e ↦ let (a, g, q) = c.fixed e in rw e (rw g (format_money-Gives a q))
    | inr e ↦ rw e (mul-Gives base (n.percent t.rate) p (n.parse-percent t.rate))
  ]

  display_rate-Gives :
      (t : LineTaxInput) → IsComputable t → Gives (λ r. Unit {0}) (display_rate t.rate)
  unfolding display_rate
  display_rate-Gives t c = elim (Bool-cases (any (λ c. c == b'.') t.rate)) [
    | inl e ↦ rw e (Gives-mono (format_money-Gives t.rate (c.rate e)) (λ _ _. tt))
    | inr e ↦ rw e (gives t.rate tt)
  ]

  fixed_step-Gives :
      (m : List (Text × Text)) (t : LineTaxInput)
      → IsComputable t
      → AllParse m
      → Gives AllParse (fixed_step m t)
  unfolding fixed_step
  fixed_step-Gives m t c h = elim (Bool-cases (is_fixed_amount_tax_type t.tax_type)) [
    | inl e ↦
        let (a, g, q) = c.fixed e in
        rw e (
          rw g (
            Gives-bind _ (format_money-Gives a q)
              λ v p. gives (map_set m (code_of t) v) (set-AllParse m (code_of t) v h p)))
    | inr e ↦ rw e (gives m h)
  ]

  set_amount-Gives :
      (m : List (Text × Text)) (t : LineTaxInput) (code base : Text)
      → IsComputable t
      → AllParse m
      → Parses base
      → Gives AllParse (set_amount m t code base)
  unfolding set_amount
  set_amount-Gives m t code base c h p =
      Gives-bind _ (tax_amount_from-Gives t base c p)
        λ v q. gives (map_set m code v) (set-AllParse m code v h q)

  fixed_loop-Gives :
      (m : List (Text × Text)) (ts : List LineTaxInput)
      → All IsComputable ts
      → AllParse m
      → Gives AllParse (fixed_loop m ts)
  unfolding fixed_loop
  fixed_loop-Gives m [] c h = gives m h
  fixed_loop-Gives m (t ∷ ts) (c, cs) h =
      Gives-bind _ (fixed_step-Gives m t c h) λ m' h'. fixed_loop-Gives m' ts cs h'

  -- The state of the loop over the fees.
  abbrev FeesParse : List (Text × Text) × Text → Type 0
  FeesParse (m, fees) = AllParse m × Parses fees

  fee_amount-Gives :
      (net : Text) (m : List (Text × Text)) (t : LineTaxInput) (code : Text)
      → IsComputable t
      → AllParse m
      → Parses net
      → Gives AllParse (fee_amount net m t code)
  unfolding fee_amount
  fee_amount-Gives net m t code c h p =
      Gives-if _ (λ _. set_amount-Gives m t code net c h p) (λ _. gives m h)

  fee_sum-Gives :
      (fees code : Text) (m : List (Text × Text))
      → AllParse m
      → Parses fees
      → Gives FeesParse (fee_sum fees code m)
  unfolding fee_sum
  fee_sum-Gives fees code m h p = elim (Bool-cases (is_taxable_fee_tax_type code)) [
    | inl e ↦
        rw e
          (Gives-bind _ (add-Gives fees (amount_of m code) p (h code)) λ f q. gives (m, f) (h, q))
    | inr e ↦ rw e (gives (m, fees) (h, p))
  ]

  fee_loop-Gives :
      (net : Text) (s : List (Text × Text) × Text) (ts : List LineTaxInput)
      → All IsComputable ts
      → FeesParse s
      → Parses net
      → Gives FeesParse (fee_loop net s ts)
  unfolding fee_loop fee_step
  fee_loop-Gives net s [] c h p = gives s h
  fee_loop-Gives net (m, fees) (t ∷ ts) (c, cs) (h, q) p =
      Gives-bind _
        (Gives-bind _ (fee_amount-Gives net m t (code_of t) c h p)
          λ m' h'. fee_sum-Gives fees (code_of t) m' h' q)
        λ s' h'. fee_loop-Gives net s' ts cs h' p

  by_code-IsComputable :
      (ts : List LineTaxInput) (code : Text) {t : LineTaxInput}
      → All IsComputable ts
      → by_code ts code ≡ some t
      → IsComputable t
  unfolding by_code
  by_code-IsComputable [] code c e = cc
  by_code-IsComputable (t ∷ ts) code (c, cs) e = elim (Option-cases (by_code ts code)) [
    | inl last ↦ subst IsComputable (some_if (text_eq (code_of t) code) (rw (last, by_code) at e)) c
    | inr (later, found) ↦ by_code-IsComputable ts code cs (found ∙ (rw (found, by_code) at e))
  ]

  set_missing-Gives :
      (m : List (Text × Text)) (ts : List LineTaxInput) (code : Text) (base : Calc Text)
      → All IsComputable ts
      → AllParse m
      → Gives Parses base
      → Gives AllParse (set_missing m (by_code ts code) code base)
  unfolding set_missing
  set_missing-Gives m ts code base c h p = elim (Option-cases (by_code ts code)) [
    | inl e ↦ rw e (gives m h)
    | inr (t, e) ↦ rw e (elim (Bool-cases (map_has m code)) [
      | inl old ↦ rw old (gives m h)
      | inr new ↦
          rw new (
            Gives-bind _ p
              λ b q. set_amount-Gives m t code b (by_code-IsComputable ts code c e) h q)
    ])
  ]

  rest_step-Gives :
      (net items fee_base : Text) (m : List (Text × Text)) (t : LineTaxInput)
      → IsComputable t
      → AllParse m
      → Parses net
      → Parses items
      → Parses fee_base
      → Gives AllParse (rest_step net items fee_base m t)
  unfolding rest_step
  rest_step-Gives net items fee_base m t c h p q r = elim (Bool-cases (map_has m (code_of t))) [
    | inl old ↦ rw old (gives m h)
    | inr new ↦ rw new (elim (Bool-cases (text_eq (code_of t) (lit "T4"))) [
      | inl e ↦
          rw e
            (Gives-bind _ (sub-Gives net items p q) λ b s. set_amount-Gives m t (code_of t) b c h s)
      | inr e ↦ rw e (set_amount-Gives m t (code_of t) fee_base c h r)
    ])
  ]

  rest_loop-Gives :
      (net items fee_base : Text) (m : List (Text × Text)) (ts : List LineTaxInput)
      → All IsComputable ts
      → AllParse m
      → Parses net
      → Parses items
      → Parses fee_base
      → Gives AllParse (rest_loop net items fee_base m ts)
  unfolding rest_loop
  rest_loop-Gives net items fee_base m [] c h p q r = gives m h
  rest_loop-Gives net items fee_base m (t ∷ ts) (c, cs) h p q r =
      Gives-bind _ (rest_step-Gives net items fee_base m t c h p q r)
        λ m' h'. rest_loop-Gives net items fee_base m' ts cs h' p q r

  computed_tax-Gives :
      (m : List (Text × Text)) (t : LineTaxInput)
      → IsComputable t
      → AllParse m
      → Gives (λ x. Parses x.amount) (computed_tax m t)
  unfolding computed_tax
  computed_tax-Gives m t c h = Gives-bind _ (display_rate-Gives t c) λ r _. gives _ (h (code_of t))

  computed_taxes :
      (m : List (Text × Text)) (ts : List LineTaxInput)
      → All IsComputable ts
      → AllParse m
      → All (λ t. Gives (λ x. Parses x.amount) (computed_tax m t)) ts
  computed_taxes m [] c h = tt
  computed_taxes m (t ∷ ts) (c, cs) h = (computed_tax-Gives m t c h, computed_taxes m ts cs h)

  vat_base-Gives :
      (fee_base : Text) (m : List (Text × Text))
      → AllParse m
      → Parses fee_base
      → Gives Parses (vat_base fee_base m)
  vat_base-Gives fee_base m h p =
      Gives-bind _ (add-Gives fee_base (amount_of m (lit "T3")) p (h (lit "T3")))
        λ b q. add-Gives b (amount_of m (lit "T2")) q (h (lit "T2"))

  pub compute_tax_amounts-Gives :
      (ts : List LineTaxInput) (net items difference : Text)
      → All IsComputable ts
      → Parses net
      → Parses items
      → Parses difference
      → Gives (λ r. All (λ x. Parses x.amount) r.0) (compute_tax_amounts ts net items difference)
  unfolding compute_tax_amounts
  compute_tax_amounts-Gives ts net items difference c p q r =
      Gives-bind _ (fixed_loop-Gives [] ts c nil-AllParse) λ fixed hf.
        Gives-bind _ (fee_loop-Gives net (fixed, zero_money) ts c (hf, zero-Parses) p) λ s hs.
          Gives-bind _ (add-Gives net s.1 p hs.1) λ with_fees pw.
            Gives-bind _ (add-Gives with_fees difference pw r) λ base pb.
              Gives-bind _
                (set_missing-Gives s.0 ts (lit "T2") _ c hs.0
                  (add-Gives base (amount_of s.0 (lit "T3")) pb (hs.0 (lit "T3"))))
                λ m2 h2.
                  Gives-bind _
                    (set_missing-Gives m2 ts (lit "T1") _ c h2 (vat_base-Gives base m2 h2 pb))
                    λ m1 h1. Gives-bind _ (rest_loop-Gives net items base m1 ts c h1 p q pb) λ m h.
                      Gives-bind _ (traverse-Gives (computed_tax m) ts (computed_taxes m ts c h))
                        λ xs hx. gives (xs, s.1) hx
