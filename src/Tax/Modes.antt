-- ===== src/Tax/Modes.antt =====
-- The tax mode of a line in packages/eta-core/src/tax-modes.ts: the taxes that `taxesForMode`
-- writes for a mode are read back by `inferLineTaxMode`.
use einvoice.Prelude.{
  ◌≡◌, refl, ap, ◌∙◌, Bool, true, false, Option, none, some, List, [], ◌∷◌, Text, lit, ok, arith,
  if◌then◌else◌,
}
use einvoice.Money.{Numerics}
use einvoice.Tax.{
  LineTaxMode, taxable, zero_rated, exempt, untaxed, LineTaxInput, ModeOptions, chosen, or_default,
  is_zero_rated_subtype, is_exempt_subtype, taxes_for_mode, infer_line_tax_mode,
  default_taxable_tax, vat_tax_type,
}

-- The fallback of `chosen` is used only where the option fails the test.
chosen-passes :
    (test : Text → Bool) (fallback : Text) (o : Option Text)
    → test fallback ≡ true
    → test (chosen test fallback o) ≡ true
chosen-passes test fallback none h = h
chosen-passes test fallback (some s) h = ground arith

-- No subtype is both exempt and zero-rated.
pub not_zero_rated : (s : Text) → is_exempt_subtype s ≡ true → is_zero_rated_subtype s ≡ false
unfolding is_exempt_subtype is_zero_rated_subtype
not_zero_rated s h = ground (arith)

module _ ⦃n : Numerics⦄ where
  infer-zero_rate :
      (s : Text)
      → infer_line_tax_mode (
          some
            (record { tax_type = vat_tax_type; sub_type = s; rate = lit "0"; amount = none } ∷ []))
        ≡ (if is_zero_rated_subtype s
            then zero_rated
            else if is_exempt_subtype s
            then exempt
            else taxable)
  unfolding infer_line_tax_mode
  infer-zero_rate s = ground (arith, n.number-zero)

  infer-chosen_zero_rated :
      (s : Text)
      → is_zero_rated_subtype s ≡ true
      → infer_line_tax_mode (
          some
            (record { tax_type = vat_tax_type; sub_type = s; rate = lit "0"; amount = none } ∷ []))
        ≡ zero_rated
  infer-chosen_zero_rated s h = infer-zero_rate s ∙ rw h

  infer-chosen_exempt :
      (s : Text)
      → is_exempt_subtype s ≡ true
      → infer_line_tax_mode (
          some
            (record { tax_type = vat_tax_type; sub_type = s; rate = lit "0"; amount = none } ∷ []))
        ≡ exempt
  infer-chosen_exempt s h = infer-zero_rate s ∙ rw (not_zero_rated s h) (rw h)

  infer-nil : infer_line_tax_mode (some []) ≡ untaxed
  unfolding infer_line_tax_mode
  infer-nil = refl

  infer-default : infer_line_tax_mode (some (default_taxable_tax ∷ [])) ≡ taxable
  unfolding infer_line_tax_mode default_taxable_tax
  infer-default = ground arith

  -- Whatever subtypes the caller asks for, the taxes written for a mode without given taxes are
  -- written (nothing is thrown) and are inferred as that mode.
  pub infer-taxes_for_mode :
      (m : LineTaxMode) (opts : ModeOptions)
      → opts.taxes ≡ []
      → (ts : List LineTaxInput) × (taxes_for_mode m opts ≡ ok ts)
        × (infer_line_tax_mode (some ts) ≡ m)
  unfolding taxes_for_mode
  infer-taxes_for_mode untaxed opts h = ([], refl, infer-nil)
  infer-taxes_for_mode zero_rated opts h =
      let sub = chosen is_zero_rated_subtype (lit "V001") opts.zero_rated_subtype in
      let ok_sub : is_zero_rated_subtype sub ≡ true =
        chosen-passes is_zero_rated_subtype (lit "V001") opts.zero_rated_subtype refl in
      (
        record { tax_type = vat_tax_type; sub_type = sub; rate = lit "0"; amount = none } ∷ [],
        rw ok_sub refl,
        infer-chosen_zero_rated sub ok_sub,
      )
  infer-taxes_for_mode exempt opts h =
      let sub = chosen is_exempt_subtype (lit "V003") opts.exempt_subtype in
      let ok_sub : is_exempt_subtype sub ≡ true =
        chosen-passes is_exempt_subtype (lit "V003") opts.exempt_subtype refl in
      (
        record { tax_type = vat_tax_type; sub_type = sub; rate = lit "0"; amount = none } ∷ [],
        rw ok_sub refl,
        infer-chosen_exempt sub ok_sub,
      )
  infer-taxes_for_mode taxable opts h =
      (default_taxable_tax ∷ [], ap (λ l. ok (or_default l)) h, infer-default)
