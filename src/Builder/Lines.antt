-- ===== src/Builder/Lines.antt =====
-- What the object of a line holds that `buildLines` of packages/eta-core/src/builders/document.ts
-- makes.
use einvoice.Prelude.{
  ◌≡◌, refl, ◌∙◌, ap, false, Bool-cases, Option, none, some, List, [], ◌∷◌, map, Text, lit, text_eq,
  Unicode, ok, thrown, traverse, ok-injective, Ensures, Ensures-bind, Ensures-ok, inl, inr,
}
use einvoice.Money.{Numerics, Calc}
use einvoice.Totals.{LineTaxComputed, or_else}
use einvoice.Totals.Line.{LineInput, LineComputed, calculate_line}
use einvoice.Json.{Json, num, str, arr, obj, Fields, end, field, get_field, set_field, items}
use einvoice.Json.Objects.{get_field-set_field}
use einvoice.Formats.{to_eta_decimal_number}
use einvoice.Builder.{
  from_calc, set_given, set_number, unit_value, taxable_item, line_core, build_line,
}

module _ ⦃n : Numerics⦄ where
  pub to_eta_decimal_number-Ensures :
      (t : Text) → Ensures (λ x. x ≡ n.number t) (to_eta_decimal_number t)
  unfolding to_eta_decimal_number
  to_eta_decimal_number-Ensures t = elim (Bool-cases (n.is_finite (n.number t))) [
    | inl e ↦ rw (e, to_eta_decimal_number) (Ensures-ok refl)
    | inr e ↦ rw (e, to_eta_decimal_number) (record { holds = λ x h. cc })
  ]

  -- The object of a tax.
  abbrev pub tax_object : LineTaxComputed → Json n.Double
  tax_object t = obj (
      field (lit "taxType") (str t.tax_type) (
        field (lit "amount") (num (n.number t.amount)) (
          field (lit "subType") (str t.sub_type) (field (lit "rate") (num (n.number t.rate)) end))))

  taxable_item-Ensures : (t : LineTaxComputed) → Ensures (λ v. v ≡ tax_object t) (taxable_item t)
  unfolding taxable_item
  taxable_item-Ensures t = Ensures-bind (to_eta_decimal_number t.amount) λ a ea.
      Ensures-bind (to_eta_decimal_number t.rate) λ r er. Ensures-ok (
        rw ((to_eta_decimal_number-Ensures t.amount).holds a ea)
          (rw ((to_eta_decimal_number-Ensures t.rate).holds r er) refl))

  taxable_items-Ensures :
      (ts : List LineTaxComputed)
      → Ensures (λ vs. vs ≡ map tax_object ts) (traverse taxable_item ts)
  taxable_items-Ensures [] = Ensures-ok refl
  taxable_items-Ensures (t ∷ ts) = Ensures-bind (taxable_item t) λ v e.
      Ensures-bind (traverse taxable_item ts) λ vs es.
        Ensures-ok
          (λ i. (taxable_item-Ensures t).holds v e i ∷ (taxable_items-Ensures ts).holds vs es i)

  -- What the check of the totals reads of a line.
  pub record Sends (c : LineComputed) (fs : Fields n.Double) : Type 0 where
    pub total : get_field fs (lit "total") ≡ some (num (n.number c.total))
    pub net_total : get_field fs (lit "netTotal") ≡ some (num (n.number c.net_total))
    pub items_discount : get_field fs (lit "itemsDiscount") ≡ some (num (n.number c.items_discount))
    pub taxes :
        get_field fs (lit "taxableItems") ≡ some (arr (items (map tax_object c.tax_amounts)))

  line_core-Sends : (line : LineInput) (c : LineComputed) → Ensures (Sends c) (line_core line c)
  unfolding line_core get_field
  line_core-Sends line c = Ensures-bind (unit_value line) λ unit _.
      Ensures-bind (to_eta_decimal_number line.quantity) λ quantity _.
        Ensures-bind (to_eta_decimal_number c.sales_total) λ sales _.
          Ensures-bind (to_eta_decimal_number c.total) λ total et.
            Ensures-bind (to_eta_decimal_number c.value_difference) λ difference _.
              Ensures-bind (to_eta_decimal_number c.total_taxable_fees) λ fees _.
                Ensures-bind (to_eta_decimal_number c.net_total) λ net en.
                  Ensures-bind (to_eta_decimal_number c.items_discount) λ discount ed.
                    Ensures-bind (to_eta_decimal_number (or_else line.discount_rate (lit "0")))
                      λ rate _. Ensures-bind (to_eta_decimal_number c.discount) λ amount _.
                        Ensures-bind (traverse taxable_item c.tax_amounts) λ taxes ex.
                          Ensures-ok (record {
                            total =
                                ap (λ x. some (num x))
                                  ((to_eta_decimal_number-Ensures c.total).holds total et);
                            net_total =
                                ap (λ x. some (num x))
                                  ((to_eta_decimal_number-Ensures c.net_total).holds net en);
                            items_discount =
                                ap (λ x. some (num x))
                                  ((to_eta_decimal_number-Ensures c.items_discount).holds discount
                                    ed);
                            taxes =
                                ap (λ xs. some (arr (items xs)))
                                  ((taxable_items-Ensures c.tax_amounts).holds taxes ex);
                          })

  -- The key is none of those that the check of the totals reads.
  abbrev IsOther : Text → Type 0
  IsOther k =
      (text_eq k (lit "total") ≡ false)
      × (text_eq k (lit "netTotal") ≡ false)
      × (text_eq k (lit "itemsDiscount") ≡ false)
      × (text_eq k (lit "taxableItems") ≡ false)

  Sends-set_field :
      (c : LineComputed) (fs : Fields n.Double) (k : Text) (v : Json n.Double)
      → IsOther k
      → Sends c fs
      → Sends c (set_field fs k v)
  Sends-set_field c fs k v (a, b, d, e) s = record {
    total = get_field-set_field fs k (lit "total") v ∙ rw a s.total;
    net_total = get_field-set_field fs k (lit "netTotal") v ∙ rw b s.net_total;
    items_discount = get_field-set_field fs k (lit "itemsDiscount") v ∙ rw d s.items_discount;
    taxes = get_field-set_field fs k (lit "taxableItems") v ∙ rw e s.taxes;
  }

  Sends-set_given :
      (c : LineComputed) (fs : Fields n.Double) (k : Text) (o : Option Text)
      → IsOther k
      → Sends c fs
      → Sends c (set_given fs k o)
  Sends-set_given c fs k none h s = s
  Sends-set_given c fs k (some []) h s = s
  Sends-set_given c fs k (some (x ∷ t)) h s = Sends-set_field c fs k (str (x ∷ t)) h s

  Sends-set_number :
      (c : LineComputed) (fs : Fields n.Double) (k : Text) (o : Option Text)
      → IsOther k
      → Sends c fs
      → Ensures (Sends c) (set_number fs k o)
  unfolding set_number
  Sends-set_number c fs k none h s = Ensures-ok s
  Sends-set_number c fs k (some []) h s = Ensures-ok s
  Sends-set_number c fs k (some (x ∷ t)) h s =
      Ensures-bind (to_eta_decimal_number (x ∷ t))
        λ y _. Ensures-ok (Sends-set_field c fs k (num y) h s)

module _ {A : Type 0} where
  pub from_calc-returned : (m : Calc A) (a : A) → from_calc m ≡ ok a → m ≡ ok a
  from_calc-returned (ok b) a e = ap ok (ok-injective e)
  from_calc-returned (thrown t) a e = cc

module _ ⦃u : Unicode⦄ ⦃n : Numerics⦄ where
  -- The line that is returned is the one that `calculateLine` computes, and the object holds it.
  abbrev pub IsBuilt : LineInput → LineComputed × Fields n.Double → Type 0
  IsBuilt line b = (calculate_line line ≡ ok (b.0)) × Sends (b.0) (b.1)

  pub build_line-IsBuilt : (line : LineInput) → Ensures (IsBuilt line) (build_line line)
  unfolding build_line
  build_line-IsBuilt line = Ensures-bind (from_calc (calculate_line line)) λ c ec.
      Ensures-bind (line_core line c) λ core es.
        let s0 = (line_core-Sends line c).holds core es in
        let s1 =
          Sends-set_given c core (lit "internalCode") line.internal_code (refl, refl, refl, refl)
            s0 in
        let s2 =
          Sends-set_given c _ (lit "weightUnitType") line.weight_unit_type (refl, refl, refl, refl)
            s1 in
        Ensures-bind (set_number _ (lit "weightQuantity") line.weight_quantity) λ out eo.
          Ensures-ok (
            from_calc-returned (calculate_line line) c ec,
            (Sends-set_number c _ (lit "weightQuantity") line.weight_quantity
                  (refl, refl, refl, refl) s2).holds
                out eo,
          )
