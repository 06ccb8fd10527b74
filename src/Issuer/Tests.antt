-- ===== src/Issuer/Tests.antt =====
-- The theorems on packages/eta-core/src/issuer-address.ts at concrete inputs.
use einvoice.Prelude.{◌≡◌, refl, true, false, none, some, lit, trim}
use einvoice.Issuer.{
  branch_id, country, governate, region_city, street, building_number, IssuerAddress, Defaults,
  normalize_issuer_address, resolve_issuer_address, missing_issuer_address_fields,
  is_issuer_address_complete,
}
use einvoice.Issuer.Completeness.{
  resolved, is_none, resolve_issuer_address-located, resolve_issuer_address_complete,
}

abbrev settings : IssuerAddress
settings governate = some (lit " Cairo ")
settings region_city = some (lit "Nasr City")
settings street = some (lit "Road 9")
settings building_number = some (lit "12")
settings _ = none

-- A blank street and another building.
abbrev overrides : IssuerAddress
overrides street = some (lit "   ")
overrides building_number = some (lit "14 ")
overrides _ = none

abbrev no_defaults : Defaults
no_defaults = record { branch_id = none; country = none }

street_run :
    resolve_issuer_address (some settings) (some overrides) no_defaults street ≡ some (lit "Road 9")
unfolding resolve_issuer_address normalize_issuer_address trim
street_run = refl

resolve_issuer_address-located_example :
    (is_none
        (normalize_issuer_address (some (resolved none (some overrides) no_defaults)) branch_id)
      ≡ false)
    × (is_none
          (normalize_issuer_address (some (resolved none (some overrides) no_defaults)) country)
        ≡ false)
resolve_issuer_address-located_example =
    resolve_issuer_address-located none (some overrides) no_defaults

resolve_issuer_address_complete_example :
    is_issuer_address_complete (some (resolved (some settings) (some overrides) no_defaults)) ≡ true
unfolding is_issuer_address_complete missing_issuer_address_fields normalize_issuer_address trim
resolve_issuer_address_complete_example =
    resolve_issuer_address_complete (some settings) (some overrides) no_defaults refl
