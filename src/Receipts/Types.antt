-- ===== src/Receipts/Types.antt =====
-- packages/eta-core/src/receipts/types.ts: the types of receipts, of buyers and of payments, and when
-- a buyer has to be named.
use einvoice.Prelude.{
  ℕ, Bool, ◌||◌, ◌&&◌, Option, none, some, List, [], ◌∷◌, Text, lit, text_eq, has, trim, to_upper,
  Unicode, Result, ok, thrown, if◌then◌else◌,
}

pub data ReceiptType : Type 0 where
  sale return_sale service_receipt : ReceiptType

abbrev pub receipt_type_text : ReceiptType → Text
receipt_type_text sale = lit "s"
receipt_type_text return_sale = lit "r"
receipt_type_text service_receipt = lit "SR"

abbrev pub receipt_type_version : Text
receipt_type_version = lit "1.2"

abbrev pub max_receipt_lines : ℕ
max_receipt_lines = 300

abbrev pub receipt_payment_methods : List Text
receipt_payment_methods =
    lit "C"
    ∷ lit "V"
    ∷ lit "CC"
    ∷ lit "VC"
    ∷ lit "VO"
    ∷ lit "PR"
    ∷ lit "GC"
    ∷ lit "P"
    ∷ lit "O"
    ∷ []

abbrev pub receipt_buyer_types : List Text
receipt_buyer_types = lit "P" ∷ lit "B" ∷ lit "F" ∷ []

-- `isReceiptType`, with the type that it narrows to.
unfoldable pub as_receipt_type : Text → Option ReceiptType
as_receipt_type s =
    if text_eq s (lit "s")
    then some sale
    else if text_eq s (lit "r")
    then some return_sale
    else if text_eq s (lit "SR")
    then some service_receipt
    else none

unfoldable pub is_receipt_payment_method : Text → Bool
is_receipt_payment_method value = has receipt_payment_methods value

unfoldable pub is_receipt_buyer_type : Text → Bool
is_receipt_buyer_type value = has receipt_buyer_types value

module _ ⦃u : Unicode⦄ where
  abbrev pub from_upper : Text → Text → Result Text ReceiptType
  from_upper value upper =
      if text_eq upper (lit "S")
      then ok sale
      else if text_eq upper (lit "R")
      then ok return_sale
      else if text_eq upper (lit "SR")
      then ok service_receipt
      else thrown value

  abbrev pub or_upper : Text → Text → Option ReceiptType → Result Text ReceiptType
  or_upper value raw (some t) = ok t
  or_upper value raw none = from_upper value (to_upper raw)

  -- What is no type is thrown.
  unfoldable pub normalize_receipt_type : Text → Result Text ReceiptType
  unfolding as_receipt_type
  normalize_receipt_type value = or_upper value (trim value) (as_receipt_type (trim value))

  -- Whether the total reaches the threshold is an argument.
  unfoldable pub buyer_identity_required : Text → Bool → Bool
  buyer_identity_required buyer_type reaches =
      let t = to_upper (trim buyer_type) in
      text_eq t (lit "B") || text_eq t (lit "F") || (text_eq t (lit "P") && reaches)
