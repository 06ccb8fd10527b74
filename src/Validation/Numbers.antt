-- ===== src/Validation/Numbers.antt =====
-- The numbers of a payload that packages/eta-core/src/builders/document.ts makes, as
-- `assertJsonNumber` of packages/eta-core/src/local-validator.ts looks at them.
use einvoice.Prelude.{
  ◌≡◌, refl, ◌∙◌, true, Bool-cases, some, List, [], ◌∷◌, Text, lit, has, all, and_parts, Unicode,
  ok, traverse, Ensures, Ensures-bind, Ensures-ok, All, inl, inr, text_eq,
}
use einvoice.Money.{Numerics}
use einvoice.Totals.{or_else}
use einvoice.Totals.Line.{LineInput, LineComputed, calculate_line}
use einvoice.Json.{obj, Fields, get_field}
use einvoice.Formats.{to_eta_decimal_number}
use einvoice.Builder.{
  from_calc, set_given, set_number, foreign_amounts, unit_value, taxable_item, line_core,
  build_line, or_default_text,
}
use einvoice.Builder.Kept.{Keeps, Keeps-trans, Keeps-set_given, set_number-Ensures}
use einvoice.Validation.{is_json_number}
use einvoice.Validation.Document.{line_paths}

module _ ⦃n : Numerics⦄ where
  -- The field is a finite number.
  abbrev pub IsNumber : Fields n.Double → Text → Type 0
  IsNumber fs k = is_json_number (get_field fs k) ≡ true

  finite-Ensures : (t : Text) → Ensures (λ x. n.is_finite x ≡ true) (to_eta_decimal_number t)
  unfolding to_eta_decimal_number
  finite-Ensures t = elim (Bool-cases (n.is_finite (n.number t))) [
    | inl e ↦ rw (e, to_eta_decimal_number) (Ensures-ok e)
    | inr e ↦ rw (e, to_eta_decimal_number) (record { holds = λ x h. cc })
  ]

  pub finite_of : (t : Text) (x : n.Double) → to_eta_decimal_number t ≡ ok x → n.is_finite x ≡ true
  finite_of t x e = (finite-Ensures t).holds x e

  IsNumber-Keeps :
      {keys : List Text} {a b : Fields n.Double} (js : List Text)
      → Keeps keys a b
      → all (has keys) js ≡ true
      → All (IsNumber a) js
      → All (IsNumber b) js
  IsNumber-Keeps [] k h p = tt
  IsNumber-Keeps {keys} (j ∷ js) k h (p, ps) =
      let (inside, others) = and_parts (has keys j) (all (has keys) js) h in
      (rw (k.kept j inside) p, IsNumber-Keeps js k others ps)

  abbrev unit_keys : List Text
  unit_keys = lit "amountEGP" ∷ []

  foreign_amounts-Ensures :
      (base : Fields n.Double) (line : LineInput)
      → Ensures (Keeps unit_keys base) (foreign_amounts base line)
  unfolding foreign_amounts
  foreign_amounts-Ensures base line =
      Ensures-bind (set_number base (lit "amountSold") line.amount_sold) λ out eo.
        let p =
          (set_number-Ensures unit_keys base (lit "amountSold") line.amount_sold refl).holds out
            eo in
        record {
          holds = λ r er. Keeps-trans p (
              (set_number-Ensures unit_keys out (lit "currencyExchangeRate")
                  line.currency_exchange_rate refl).holds
                r er);
        }

  unit_value-IsNumber :
      (line : LineInput) → Ensures (λ uv. IsNumber uv (lit "amountEGP")) (unit_value line)
  unfolding unit_value get_field
  unit_value-IsNumber line =
      Ensures-bind (to_eta_decimal_number (or_else line.amount_egp line.unit_price)) λ x ex.
        let finite = finite_of (or_else line.amount_egp line.unit_price) x ex in
        let sold = or_default_text line.currency_sold (lit "EGP") in
        elim (Bool-cases (text_eq sold (lit "EGP"))) [
          | inl e ↦ rw e (Ensures-ok finite)
          | inr e ↦ rw e (record {
            holds = λ uv h.
                rw (((foreign_amounts-Ensures _ line).holds uv h).kept (lit "amountEGP") refl)
                  finite;
          })
        ]

  -- The numbers of a line that are checked.
  pub record HasNumbers (fs : Fields n.Double) : Type 0 where
    pub numbers : All (IsNumber fs) line_paths
    pub unit : Fields n.Double
    pub unit_field : get_field fs (lit "unitValue") ≡ some (obj unit)
    pub amount : IsNumber unit (lit "amountEGP")

  line_core-HasNumbers :
      (line : LineInput) (c : LineComputed) → Ensures HasNumbers (line_core line c)
  unfolding line_core get_field
  line_core-HasNumbers line c = Ensures-bind (unit_value line) λ unit eu.
      Ensures-bind (to_eta_decimal_number line.quantity) λ quantity eq.
        Ensures-bind (to_eta_decimal_number c.sales_total) λ sales es.
          Ensures-bind (to_eta_decimal_number c.total) λ total et.
            Ensures-bind (to_eta_decimal_number c.value_difference) λ difference ed.
              Ensures-bind (to_eta_decimal_number c.total_taxable_fees) λ fees ef.
                Ensures-bind (to_eta_decimal_number c.net_total) λ net en.
                  Ensures-bind (to_eta_decimal_number c.items_discount) λ discount ei.
                    Ensures-bind (to_eta_decimal_number (or_else line.discount_rate (lit "0")))
                      λ rate _. Ensures-bind (to_eta_decimal_number c.discount) λ amount _.
                        Ensures-bind (traverse taxable_item c.tax_amounts) λ taxes _.
                          Ensures-ok (record {
                            numbers = (
                              finite_of _ quantity eq,
                              (
                                finite_of _ sales es,
                                (
                                  finite_of _ total et,
                                  (
                                    finite_of _ difference ed,
                                    (
                                      finite_of _ fees ef,
                                      (finite_of _ net en, (finite_of _ discount ei, tt)),
                                    ),
                                  ),
                                ),
                              ),
                            );
                            unit = unit;
                            unit_field = refl;
                            amount = (unit_value-IsNumber line).holds unit eu;
                          })

  abbrev checked_keys : List Text
  checked_keys = lit "unitValue" ∷ line_paths

  Keeps-HasNumbers : (a b : Fields n.Double) → Keeps checked_keys a b → HasNumbers a → HasNumbers b
  Keeps-HasNumbers a b k h = record {
    numbers = IsNumber-Keeps line_paths k refl h.numbers;
    unit = h.unit;
    unit_field = k.kept (lit "unitValue") refl ∙ h.unit_field;
    amount = h.amount;
  }

module _ ⦃u : Unicode⦄ ⦃n : Numerics⦄ where
  build_line-HasNumbers : (line : LineInput) → Ensures (λ b. HasNumbers (b.1)) (build_line line)
  unfolding build_line
  build_line-HasNumbers line = Ensures-bind (from_calc (calculate_line line)) λ c _.
      Ensures-bind (line_core line c) λ core ec.
        let coded = set_given core (lit "internalCode") line.internal_code in
        let weighed = set_given coded (lit "weightUnitType") line.weight_unit_type in
        Ensures-bind (set_number weighed (lit "weightQuantity") line.weight_quantity) λ out eo.
          let k1 = Keeps-set_given checked_keys core (lit "internalCode") line.internal_code refl in
          let k2 = Keeps-trans k1 (
            Keeps-set_given checked_keys coded (lit "weightUnitType") line.weight_unit_type refl) in
          let k3 = Keeps-trans k2 (
            (set_number-Ensures checked_keys weighed (lit "weightQuantity") line.weight_quantity
                refl).holds
              out eo) in
          Ensures-ok (Keeps-HasNumbers core out k3 ((line_core-HasNumbers line c).holds core ec))

  pub build_lines-HasNumbers :
      (lines : List LineInput) → Ensures (All (λ b. HasNumbers (b.1))) (traverse build_line lines)
  build_lines-HasNumbers [] = Ensures-ok tt
  build_lines-HasNumbers (l ∷ ls) = Ensures-bind (build_line l) λ b e.
      Ensures-bind (traverse build_line ls) λ bs es.
        Ensures-ok ((build_line-HasNumbers l).holds b e, (build_lines-HasNumbers ls).holds bs es)
