-- ===== src/Receipts/Builder.antt =====
-- packages/eta-core/src/receipts/receipt-builder.ts: a receipt from its input, stamped with its uuid.
pub mod Receipt
pub mod Head
pub mod Matching
pub mod Sample
mod Tests
use einvoice.Prelude.{
  ℕ, Bool, true, false, not, ◌&&◌, ◌||◌, Option, none, some, List, [], ◌∷◌, map, Text, lit, text_eq,
  trim, to_upper, Unicode, Result, ok, thrown, ◌>>=◌, traverse, length, leb, if◌then◌else◌,
}
use einvoice.Money.{Numerics, Calc, format_money}
use einvoice.Totals.{LineTaxComputed, given, or_else}
use einvoice.Json.{
  object_constructor, Json, null, bool, num, str, arr, obj, Items, Fields, end, field, get_field,
  set_field, items,
}
use einvoice.Receiver.{set_text, set_object, unless_empty}
use einvoice.Formats.{Dates, BuildError, Build, format_eta_date_time_issued, to_eta_decimal_number}
use einvoice.Builder.{from_calc, taxable_item}
use einvoice.Builder.Document.{tax_total, set_present}
use einvoice.Issuer.{
  Field, branch_id, country, governate, region_city, street, building_number, postal_code, floor,
  room, landmark, additional_information, IssuerAddress, normalize_issuer_address,
}
use einvoice.Receipts.Types.{
  ReceiptType, sale, return_sale, service_receipt, receipt_type_text, receipt_type_version,
  max_receipt_lines, normalize_receipt_type,
}
use einvoice.Receipts.Totals.{
  ReceiptDiscountEntry, ReceiptLineInput, ReceiptExtraDiscount, ReceiptLineComputed,
  ReceiptDocumentTotals, entry_amount, calculate_receipt_line, calculate_receipt_document_totals,
}

pub data ReceiptError : Type 0 where
  unsupported_receipt_type : Text → ReceiptError
  too_many_lines : ReceiptError
  building : BuildError → ReceiptError

abbrev pub from_build : {A : Type 0} → Build A → Result ReceiptError A
from_build (ok a) = ok a
from_build (thrown e) = thrown (building e)

abbrev pub from_type : {A : Type 0} → Result Text A → Result ReceiptError A
from_type (ok a) = ok a
from_type (thrown s) = thrown (unsupported_receipt_type s)

-- Numbers that may be given as numbers are given by their texts.
pub record ReceiptSellerInput : Type 0 where
  pub rin : Text
  pub company_trade_name : Text
  pub branch_code : Text
  pub branch_address : IssuerAddress
  pub device_serial_number : Text
  pub activity_code : Text
  pub syndicate_license_number : Option Text

pub record ReceiptBuyerInput : Type 0 where
  pub type : Text
  pub id : Option Text
  pub name : Option Text
  pub mobile_number : Option Text
  pub payment_number : Option Text

pub record ReceiptBuildInput (N : Type 0) : Type 0 where
  pub receipt_type : Text
  pub type_version : Option Text
  pub date_time_issued : Text
  pub receipt_number : Text
  pub previous_uuid : Text
  pub reference_uuid : Option Text
  pub currency : Text
  pub exchange_rate : Option Text
  pub s_order_name_code : Option Text
  pub orderdelivery_mode : Option Text
  pub gross_weight : Option Text
  pub net_weight : Option Text
  pub seller : ReceiptSellerInput
  pub buyer : ReceiptBuyerInput
  pub lines : List ReceiptLineInput
  pub extra_receipt_discount_data : List ReceiptExtraDiscount
  pub payment_method : Text
  pub contractor : Option (Fields N)
  pub beneficiary : Option (Fields N)

abbrev pub field_name : Field → Text
field_name branch_id = lit "branchId"
field_name country = lit "country"
field_name governate = lit "governate"
field_name region_city = lit "regionCity"
field_name street = lit "street"
field_name building_number = lit "buildingNumber"
field_name postal_code = lit "postalCode"
field_name floor = lit "floor"
field_name room = lit "room"
field_name landmark = lit "landmark"
field_name additional_information = lit "additionalInformation"

-- `ISSUER_ADDRESS_FIELDS`
abbrev pub issuer_address_fields : List Field
issuer_address_fields =
    branch_id ∷ country ∷ governate ∷ region_city ∷ street ∷ building_number ∷ postal_code ∷ floor
    ∷ room ∷ landmark ∷ additional_information ∷ []

-- `value?.trim()`, empty where there is none: the code takes the two alike.
abbrev pub optional_string : Option Text → Text
optional_string none = []
optional_string (some s) = trim s

-- `text || fallback`
abbrev pub text_or : Text → Text → Text
text_or [] d = d
text_or (c ∷ s) d = c ∷ s

module _ {N : Type 0} where
  abbrev pub set_value : Fields N → Text → Option Text → Fields N
  set_value out key none = out
  set_value out key (some s) = set_text out key s

  unfoldable pub address_fields_loop : Fields N → IssuerAddress → List Field → Fields N
  address_fields_loop out address [] = out
  address_fields_loop out address (f ∷ fs) =
      address_fields_loop (set_value out (field_name f) (address f)) address fs

  -- `if (!out.country) out.country = 'EG'`
  abbrev pub default_country : Fields N → Option (Json N) → Fields N
  default_country out (some v) = out
  default_country out none = set_field out (lit "country") (str (lit "EG"))

  unfoldable pub compact_address : IssuerAddress → Fields N
  unfolding address_fields_loop
  compact_address address =
      let out =
        address_fields_loop end (normalize_issuer_address (some address)) issuer_address_fields in
      default_country out (get_field out (lit "country"))

  abbrev pub is_kept : Json N → Bool
  is_kept null = false
  is_kept (str []) = false
  is_kept (str (c ∷ s)) = true
  is_kept (num x) = true
  is_kept (bool b) = true
  is_kept object_constructor = false
  is_kept (arr xs) = false
  is_kept (obj fs) = false

  unfoldable pub party_loop : Fields N → Fields N → Fields N
  party_loop out end = out
  party_loop out (field k v fs) = party_loop (if is_kept v then set_field out k v else out) fs

  unfoldable pub compact_party : Option (Fields N) → Option (Fields N)
  unfolding party_loop
  compact_party none = none
  compact_party (some fs) = unless_empty (party_loop end fs)

  abbrev pub some_objects : List (Option (Fields N)) → List (Json N)
  some_objects [] = []
  some_objects (none ∷ os) = some_objects os
  some_objects (some fs ∷ os) = obj fs ∷ some_objects os

  -- `if (list) out[key] = list`, of a list that is not empty.
  abbrev pub set_list : Fields N → Text → List (Json N) → Fields N
  set_list out key [] = out
  set_list out key (v ∷ vs) = set_field out key (arr (items (v ∷ vs)))

abbrev pub is_blank_text : Text → Bool
is_blank_text [] = true
is_blank_text (c ∷ s) = false

-- The computed difference, where one was given.
abbrev pub difference_of : Option Text → Text → Option Text
difference_of none computed = none
difference_of (some t) computed = some computed

abbrev pub is_given : Option Text → Bool
is_given none = false
is_given (some s) = not (is_blank_text s)

module _ ⦃u : Unicode⦄ ⦃n : Numerics⦄ where
  -- `n(text)` under a key.
  abbrev pub set_decimal : Fields n.Double → Text → Option Text → Build (Fields n.Double)
  set_decimal out key value = elim (given value) [
    | none ↦ ok out
    | some t ↦ to_eta_decimal_number t >>= λ x. ok (set_field out key (num x))
  ]

  -- The object of a discount of that amount.
  unfoldable pub discount_of : ReceiptDiscountEntry → Text → Build (Option (Fields n.Double))
  discount_of entry amount =
      if n.is_zero (n.number amount)
        && is_blank_text (optional_string entry.description)
        && not (is_given entry.rate)
      then ok none
      else (to_eta_decimal_number amount >>= λ x.
          set_decimal
            (set_text (field (lit "amount") (num x) end) (lit "description")
              (optional_string entry.description))
            (lit "rate") entry.rate
          >>= λ out. ok (some out))

  unfoldable pub discount_object : ReceiptDiscountEntry → Text → Build (Option (Fields n.Double))
  discount_object entry base =
      from_calc (entry_amount entry base) >>= λ amount. discount_of entry amount

  -- The objects that there are; an empty list stands for none.
  unfoldable pub discount_array : List ReceiptDiscountEntry → Text → Build (List (Json n.Double))
  discount_array entries base =
      traverse (λ entry. discount_object entry base) entries >>= λ os. ok (some_objects os)

  unfoldable pub set_discount :
      Fields n.Double → Text → Option ReceiptDiscountEntry → Text → Build (Fields n.Double)
  set_discount out key none base = ok out
  set_discount out key (some entry) base =
      discount_object entry base >>= λ extra. ok (set_object out key extra)

  unfoldable pub item_core : ReceiptLineInput → ReceiptLineComputed → Build (Fields n.Double)
  item_core line c = do
    quantity ← to_eta_decimal_number line.quantity
    unit_price ← to_eta_decimal_number line.unit_price
    net_sale ← to_eta_decimal_number c.net_sale
    total_sale ← to_eta_decimal_number c.total_sale
    total ← to_eta_decimal_number c.line.total
    ok (
        field (lit "internalCode") (str (trim line.internal_code)) (
          field (lit "description") (str line.description) (
            field (lit "itemType") (str line.item_type) (
              field (lit "itemCode") (str line.item_code) (
                field (lit "unitType") (str line.unit_type) (
                  field (lit "quantity") (num quantity) (
                    field (lit "unitPrice") (num unit_price) (
                      field (lit "netSale") (num net_sale) (
                        field (lit "totalSale") (num total_sale)
                          (field (lit "total") (num total) end))))))))))

  unfoldable pub build_item : ReceiptLineInput → Build (Json n.Double)
  build_item line = do
    c ← from_calc (calculate_receipt_line line)
    core ← item_core line c
    commercial ← discount_array line.commercial_discount_data c.total_sale
    let with_commercial = set_list core (lit "commercialDiscountData") commercial
    discounts ← discount_array line.item_discount_data c.total_sale
    let with_items = set_list with_commercial (lit "itemDiscountData") discounts
    difference ←
        set_decimal with_items (lit "valueDifference")
          (difference_of (given line.value_difference) c.line.value_difference)
    additional ←
        set_discount difference (lit "additionalCommercialDiscount")
          line.additional_commercial_discount c.total_sale
    item ←
        set_discount additional (lit "additionalItemDiscount") line.additional_item_discount
          c.total_sale
    taxes ← traverse taxable_item c.line.tax_amounts
    ok (obj (set_field item (lit "taxableItems") (arr (items taxes))))
