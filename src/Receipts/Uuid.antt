-- ===== src/Receipts/Uuid.antt =====
-- packages/eta-core/src/receipts/receipt-uuid.ts: the uuid of a receipt is the digest of its
-- canonical text with an empty uuid.
pub mod Stamping
use einvoice.Prelude.{
  Bool, ◌&&◌, Option, none, some, [], ◌∷◌, Text, lit, Unicode, trim, length, all, ◌==◌,
}
use einvoice.Money.{Numerics}
use einvoice.Json.{Json, str, obj, Fields, end, get_field, set_field, Items, arr, field}
use einvoice.Json.Canonical.{serialize_object}
use einvoice.Receipts.Sha256.{sha256_hex}
use einvoice.Receipts.Sha256.Hex.{is_hex}

-- `/^[0-9a-f]{64}$/`
unfoldable pub is_receipt_uuid : Text → Bool
is_receipt_uuid value = length value == 64 && all is_hex value

abbrev text_or_empty : Option Text → Text
text_or_empty none = []
text_or_empty (some t) = t

unfoldable pub previous_uuid_for_pos : Option Text → Text
previous_uuid_for_pos last = trim (text_or_empty last)

module _ {N : Type 0} where
  -- The fields that `{ ...headerRaw }` copies, none unless the header is an object.
  abbrev pub header_fields : Option (Json N) → Fields N
  header_fields (some (obj fs)) = fs
  header_fields _ = end

  -- `{ ...receipt, header: { ...source.header, uuid } }`
  unfoldable pub with_uuid : Fields N → Fields N → Text → Fields N
  with_uuid receipt source uuid =
      set_field receipt (lit "header")
        (obj (set_field (header_fields (get_field source (lit "header"))) (lit "uuid") (str uuid)))

  unfoldable pub receipt_with_empty_uuid : Fields N → Fields N
  unfolding with_uuid
  receipt_with_empty_uuid receipt = with_uuid receipt receipt []

module _ ⦃u : Unicode⦄ ⦃n : Numerics⦄ where
  -- receipt-canonical.ts repeats canonical-serialize.ts line by line.
  unfoldable pub canonical_serialize_receipt : Fields n.Double → Text
  canonical_serialize_receipt receipt = serialize_object receipt

  unfoldable pub canonical_serialize_receipt_batch : Items n.Double → Text
  canonical_serialize_receipt_batch receipts =
      serialize_object (field (lit "receipts") (arr receipts) end)

  unfoldable pub compute_receipt_uuid : Fields n.Double → Text
  compute_receipt_uuid receipt =
      sha256_hex (canonical_serialize_receipt (receipt_with_empty_uuid receipt))

  pub record Stamped : Type 0 where
    pub receipt : Fields n.Double
    pub uuid : Text
    pub uuid_canonical_string : Text
    pub canonical_string : Text

  unfoldable pub stamp_receipt_uuid : Fields n.Double → Stamped
  stamp_receipt_uuid receipt =
      let for_hash = receipt_with_empty_uuid receipt in
      let uuid_canonical = canonical_serialize_receipt for_hash in
      let uuid = sha256_hex uuid_canonical in
      let stamped = with_uuid receipt for_hash uuid in
      record {
        receipt = stamped;
        uuid = uuid;
        uuid_canonical_string = uuid_canonical;
        canonical_string = canonical_serialize_receipt stamped;
      }
