-- ===== src/Tax.antt =====
-- packages/eta-core/src/tax-modes.ts: tax types, their direction and class, the tax mode of a line,
-- and the check for a tax type that stands twice on a line.
pub mod Classes
pub mod Modes
pub mod Duplicates
mod Tests
use einvoice.Prelude.{
  ◌≡◌, refl, ◌⊎◌, inl, inr, Bool, true, false, ◌&&◌, ◌||◌, Option, none, some, List, [], ◌∷◌, ◌++◌,
  Text, lit, text_eq, has, trim, Unicode, to_upper, Result, ok, thrown, ◌>>=◌, if◌then◌else◌,
}
use einvoice.Money.{Numerics}

abbrev pub vat_tax_type : Text
vat_tax_type = lit "T1"

abbrev pub zero_rated_subtypes : List Text
zero_rated_subtypes = lit "V001" ∷ lit "V002" ∷ []

abbrev pub exempt_subtypes : List Text
exempt_subtypes = lit "V003" ∷ lit "V004" ∷ lit "V005" ∷ lit "V006" ∷ lit "V007" ∷ lit "V008" ∷ []

abbrev pub standard_taxable_subtype : Text
standard_taxable_subtype = lit "V009"

pub data LineTaxMode : Type 0 where
  taxable zero_rated exempt untaxed : LineTaxMode

-- `amount` is absent where the caller gives none (`LineTaxInputLike` has no such field).
pub record LineTaxInput : Type 0 where
  pub tax_type : Text
  pub sub_type : Text
  pub rate : Text
  pub amount : Option Text

unfoldable pub is_zero_rated_subtype : Text → Bool
is_zero_rated_subtype code = has zero_rated_subtypes code

unfoldable pub is_exempt_subtype : Text → Bool
is_exempt_subtype code = has exempt_subtypes code

unfoldable pub is_zero_or_exempt_subtype : Text → Bool
unfolding is_zero_rated_subtype is_exempt_subtype
is_zero_or_exempt_subtype code = is_zero_rated_subtype code || is_exempt_subtype code

unfoldable pub default_taxable_tax : LineTaxInput
default_taxable_tax = record {
  tax_type = vat_tax_type;
  sub_type = standard_taxable_subtype;
  rate = lit "14.00";
  amount = none;
}

-- `zeroRatedTax` and `exemptTax` throw the subtype that is not of their kind.
unfoldable pub zero_rated_tax : Text → Result Text LineTaxInput
unfolding is_zero_rated_subtype
zero_rated_tax sub =
    if is_zero_rated_subtype sub
    then ok (record { tax_type = vat_tax_type; sub_type = sub; rate = lit "0"; amount = none })
    else thrown sub

unfoldable pub exempt_tax : Text → Result Text LineTaxInput
unfolding is_exempt_subtype
exempt_tax sub =
    if is_exempt_subtype sub
    then ok (record { tax_type = vat_tax_type; sub_type = sub; rate = lit "0"; amount = none })
    else thrown sub

-- The options of `taxesForMode`; an absent list of taxes and an empty one are treated alike.
pub record ModeOptions : Type 0 where
  pub taxes : List LineTaxInput
  pub zero_rated_subtype : Option Text
  pub exempt_subtype : Option Text

-- `sub && test(sub) ? sub : fallback`
abbrev pub chosen : (Text → Bool) → Text → Option Text → Text
chosen test fallback none = fallback
chosen test fallback (some sub) = if test sub then sub else fallback

abbrev one : Result Text LineTaxInput → Result Text (List LineTaxInput)
one m = m >>= λ t. ok (t ∷ [])

abbrev pub or_default : List LineTaxInput → List LineTaxInput
or_default [] = default_taxable_tax ∷ []
or_default (t ∷ ts) = t ∷ ts

unfoldable pub taxes_for_mode : LineTaxMode → ModeOptions → Result Text (List LineTaxInput)
unfolding zero_rated_tax exempt_tax is_zero_rated_subtype is_exempt_subtype default_taxable_tax
taxes_for_mode untaxed opts = ok []
taxes_for_mode zero_rated opts =
    one (zero_rated_tax (chosen is_zero_rated_subtype (lit "V001") opts.zero_rated_subtype))
taxes_for_mode exempt opts =
    one (exempt_tax (chosen is_exempt_subtype (lit "V003") opts.exempt_subtype))
taxes_for_mode taxable opts = ok (or_default opts.taxes)

module _ ⦃n : Numerics⦄ where
  unfoldable pub infer_line_tax_mode : Option (List LineTaxInput) → LineTaxMode
  unfolding is_zero_rated_subtype is_exempt_subtype
  infer_line_tax_mode none = untaxed
  infer_line_tax_mode (some []) = untaxed
  infer_line_tax_mode (some (t ∷ [])) =
      if text_eq t.tax_type vat_tax_type && n.is_zero (n.number t.rate)
      then if is_zero_rated_subtype t.sub_type
        then zero_rated
        else if is_exempt_subtype t.sub_type
        then exempt
        else taxable
      else taxable
  infer_line_tax_mode (some (t ∷ t' ∷ ts)) = taxable

pub data EtaTaxDirection : Type 0 where
  additive deductible : EtaTaxDirection

pub Direction-cases : (d : EtaTaxDirection) → (d ≡ additive) ⊎ (d ≡ deductible)
Direction-cases additive = inl refl
Direction-cases deductible = inr refl

abbrev pub deductible_tax_types : List Text
deductible_tax_types = lit "T4" ∷ []

abbrev pub taxable_fee_tax_types : List Text
taxable_fee_tax_types =
    lit "T5" ∷ lit "T6" ∷ lit "T7" ∷ lit "T8" ∷ lit "T9" ∷ lit "T10" ∷ lit "T11" ∷ lit "T12" ∷ []

abbrev pub non_taxable_fee_tax_types : List Text
non_taxable_fee_tax_types =
    lit "T13"
    ∷ lit "T14"
    ∷ lit "T15"
    ∷ lit "T16"
    ∷ lit "T17"
    ∷ lit "T18"
    ∷ lit "T19"
    ∷ lit "T20"
    ∷ []

abbrev pub fixed_amount_tax_types : List Text
fixed_amount_tax_types = lit "T3" ∷ lit "T6" ∷ []

module _ ⦃u : Unicode⦄ where
  unfoldable pub normalize_tax_type_code : Text → Text
  normalize_tax_type_code tax_type = to_upper (trim tax_type)

  unfoldable pub eta_tax_direction : Text → EtaTaxDirection
  eta_tax_direction tax_type =
      if has deductible_tax_types (normalize_tax_type_code tax_type) then deductible else additive

  unfoldable pub is_deductible_tax_type : Text → Bool
  unfolding eta_tax_direction
  is_deductible_tax_type tax_type = elim (eta_tax_direction tax_type) [
    | deductible ↦ true
    | additive ↦ false
  ]

  unfoldable pub is_taxable_fee_tax_type : Text → Bool
  is_taxable_fee_tax_type tax_type = has taxable_fee_tax_types (normalize_tax_type_code tax_type)

  unfoldable pub is_non_taxable_fee_tax_type : Text → Bool
  is_non_taxable_fee_tax_type tax_type =
      has non_taxable_fee_tax_types (normalize_tax_type_code tax_type)

  unfoldable pub is_fixed_amount_tax_type : Text → Bool
  is_fixed_amount_tax_type tax_type = has fixed_amount_tax_types (normalize_tax_type_code tax_type)

-- `set.add(key)` of an insertion-ordered set.
abbrev pub set_add : List Text → Text → List Text
set_add s key = if has s key then s else s ++ key ∷ []

-- One round of the loop of `findDuplicateTaxTypes`, on its two sets.
abbrev pub note : List Text → List Text → Text → List Text × List Text
note seen dupes [] = (seen, dupes)
note seen dupes (c ∷ key) =
    if has seen (c ∷ key) then (seen, set_add dupes (c ∷ key)) else (set_add seen (c ∷ key), dupes)

unfoldable pub duplicates_loop : List Text × List Text → List LineTaxInput → List Text
duplicates_loop (seen, dupes) [] = dupes
duplicates_loop (seen, dupes) (t ∷ ts) = duplicates_loop (note seen dupes (trim t.tax_type)) ts

unfoldable pub find_duplicate_tax_types : List LineTaxInput → List Text
unfolding duplicates_loop
find_duplicate_tax_types taxes = duplicates_loop ([], []) taxes
