-- ===== src/Tax/Classes.antt =====
-- The classes of tax types in packages/eta-core/src/tax-modes.ts: which of them exclude each other.
use einvoice.Prelude.{
  ◌≡◌, refl, true, false, not, List, [], ◌∷◌, Text, text_eq_iff, has, Unicode, arith, all,
}
use einvoice.Tax.{
  is_deductible_tax_type, is_taxable_fee_tax_type, is_non_taxable_fee_tax_type,
  is_fixed_amount_tax_type, normalize_tax_type_code, taxable_fee_tax_types,
  non_taxable_fee_tax_types, deductible_tax_types, fixed_amount_tax_types,
}

-- Two literal sets with no common member.
has-disjoint :
    (xs ys : List Text) (c : Text)
    → all (λ x. not (has ys x)) xs ≡ true
    → has xs c ≡ true
    → has ys c ≡ false
has-disjoint [] ys c d h = cc
has-disjoint (x ∷ xs) ys c d h = ground (arith, text_eq_iff x c, has-disjoint xs ys c)

module _ ⦃u : Unicode⦄ where
  deductible_code :
      (t : Text)
      → is_deductible_tax_type t ≡ true
      → has deductible_tax_types (normalize_tax_type_code t) ≡ true
  unfolding is_deductible_tax_type
  deductible_code t h = ground arith

  -- Whatever the spelling of a code, a withholding tax is no fee and has no fixed amount, and no
  -- fee is both taxable and non-taxable.
  pub classes_exclusive :
      (t : Text)
      → (is_deductible_tax_type t ≡ true
          → (is_taxable_fee_tax_type t ≡ false)
            × (is_non_taxable_fee_tax_type t ≡ false)
            × (is_fixed_amount_tax_type t ≡ false))
        × (is_taxable_fee_tax_type t ≡ true → is_non_taxable_fee_tax_type t ≡ false)
  unfolding is_taxable_fee_tax_type is_non_taxable_fee_tax_type is_fixed_amount_tax_type
  classes_exclusive t =
      let c = normalize_tax_type_code t in
      (
        (λ h.
            let d = deductible_code t h in
            (
              has-disjoint deductible_tax_types taxable_fee_tax_types c refl d,
              has-disjoint deductible_tax_types non_taxable_fee_tax_types c refl d,
              has-disjoint deductible_tax_types fixed_amount_tax_types c refl d,
            )),
        (λ h. has-disjoint taxable_fee_tax_types non_taxable_fee_tax_types c refl h),
      )
