-- ===== src/Tax/Tests.antt =====
-- Runs of the code of tax-modes.ts, and the theorems at concrete inputs.
use einvoice.Prelude.{
  ◌≡◌, refl, ◌↔◌, true, false, none, some, List, [], ◌∷◌, Text, lit, ok, to_upper, trim,
}
use einvoice.Prelude.Plain.{plain}
use einvoice.Money.Exact.{exact}
use einvoice.Tax.{
  LineTaxInput, ModeOptions, zero_rated, taxes_for_mode, infer_line_tax_mode,
  normalize_tax_type_code, find_duplicate_tax_types, is_deductible_tax_type,
  is_taxable_fee_tax_type, is_non_taxable_fee_tax_type, is_fixed_amount_tax_type,
}
use einvoice.Tax.Modes.{infer-taxes_for_mode}
use einvoice.Tax.Classes.{classes_exclusive}
use einvoice.Tax.Duplicates.{Distinct, codes, find_duplicates-nil_iff}

-- A subtype that is not zero-rated falls back to V001.
abbrev opts : ModeOptions
opts = record { taxes = []; zero_rated_subtype = some (lit "V009"); exempt_subtype = none }

infer-taxes_for_mode_example :
    (ts : List LineTaxInput) × (taxes_for_mode zero_rated opts ≡ ok ts)
    × (infer_line_tax_mode (some ts) ≡ zero_rated)
infer-taxes_for_mode_example = infer-taxes_for_mode zero_rated opts refl

abbrev tax : Text → LineTaxInput
tax t = record { tax_type = t; sub_type = lit "V009"; rate = lit "14"; amount = none }

-- The spelling with blanks is the same code; the one in lower case is another.
duplicates_run :
    find_duplicate_tax_types (tax (lit "T1") ∷ tax (lit " T1 ") ∷ tax (lit "t1") ∷ [])
    ≡ lit "T1" ∷ []
unfolding find_duplicate_tax_types trim
duplicates_run = refl

find_duplicates-nil_iff_example :
    (find_duplicate_tax_types (tax (lit "T1") ∷ tax (lit "T4") ∷ []) ≡ [])
    ↔ Distinct (codes (tax (lit "T1") ∷ tax (lit "T4") ∷ []))
find_duplicates-nil_iff_example = find_duplicates-nil_iff (tax (lit "T1") ∷ tax (lit "T4") ∷ [])

withholding_run : is_deductible_tax_type (lit " t4 ") ≡ true
unfolding is_deductible_tax_type normalize_tax_type_code to_upper trim
withholding_run = refl

classes_exclusive_example :
    (is_deductible_tax_type (lit " t4 ") ≡ true
      → (is_taxable_fee_tax_type (lit " t4 ") ≡ false)
        × (is_non_taxable_fee_tax_type (lit " t4 ") ≡ false)
        × (is_fixed_amount_tax_type (lit " t4 ") ≡ false))
    × (is_taxable_fee_tax_type (lit " t4 ") ≡ true
        → is_non_taxable_fee_tax_type (lit " t4 ") ≡ false)
classes_exclusive_example = classes_exclusive (lit " t4 ")
