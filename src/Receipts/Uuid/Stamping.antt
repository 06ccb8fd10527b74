-- ===== src/Receipts/Uuid/Stamping.antt =====
-- The uuid that packages/eta-core/src/receipts/receipt-uuid.ts stamps on a receipt.
use einvoice.Prelude.{◌≡◌, refl, ◌∙◌, ap, true, false, some, text_eq, [], Text, lit, Unicode}
use einvoice.Money.{Numerics}
use einvoice.Json.{str, obj, Fields, get_field, set_field}
use einvoice.Json.Objects.{get_field-set_field, set_field-set_field}
use einvoice.Receipts.Sha256.{sha256_hex}
use einvoice.Receipts.Sha256.Hex.{sha256_hex-IsHex}
use einvoice.Receipts.Uuid.{
  is_receipt_uuid, with_uuid, receipt_with_empty_uuid, canonical_serialize_receipt,
  compute_receipt_uuid, stamp_receipt_uuid, header_fields,
}

module _ {N : Type 0} where
  header-with_uuid :
      (r s : Fields N) (a : Text)
      → header_fields (get_field (with_uuid r s a) (lit "header"))
        ≡ set_field (header_fields (get_field s (lit "header"))) (lit "uuid") (str a)
  unfolding with_uuid
  header-with_uuid r s a = ap header_fields (get_field-set_field r (lit "header") (lit "header") _)

  -- Only the last uuid that is written stays.
  with_uuid-source :
      (r q s : Fields N) (a b : Text) → with_uuid r (with_uuid q s a) b ≡ with_uuid r s b
  with_uuid-source r q s a b =
      unfold with_uuid in
      ap (λ h. set_field r (lit "header") (obj (set_field h (lit "uuid") (str b))))
        (header-with_uuid q s a)
      ∙ ap (λ h. set_field r (lit "header") (obj h))
          (set_field-set_field _ (lit "uuid") (str a) (str b))

  with_uuid-target :
      (r q s : Fields N) (a b : Text) → with_uuid (with_uuid r s a) q b ≡ with_uuid r q b
  unfolding with_uuid
  with_uuid-target r q s a b = set_field-set_field r (lit "header") _ _

  empty-with_uuid :
      (r : Fields N) (a : Text)
      → receipt_with_empty_uuid (with_uuid r (receipt_with_empty_uuid r) a)
        ≡ receipt_with_empty_uuid r
  unfolding receipt_with_empty_uuid
  empty-with_uuid r a =
      let e = with_uuid r r [] in
      with_uuid-target r (with_uuid r e a) e a []
      ∙ with_uuid-source r r e a []
      ∙ with_uuid-source r r r [] []

  -- The header of a receipt.
  abbrev pub header_of : Fields N → Fields N
  header_of receipt = header_fields (get_field receipt (lit "header"))

  get_field-with_uuid_other :
      (r s : Fields N) (a k : Text)
      → text_eq (lit "header") k ≡ false
      → get_field (with_uuid r s a) k ≡ get_field r k
  unfolding with_uuid
  get_field-with_uuid_other r s a k e = get_field-set_field r (lit "header") k _ ∙ rw e refl

  header-with_empty_uuid :
      (r : Fields N) (a : Text)
      → header_of (with_uuid r (receipt_with_empty_uuid r) a)
        ≡ set_field (header_of r) (lit "uuid") (str a)
  unfolding receipt_with_empty_uuid
  header-with_empty_uuid r a =
      header-with_uuid r (with_uuid r r []) a
      ∙ ap (λ h. set_field h (lit "uuid") (str a)) (header-with_uuid r r [])
      ∙ set_field-set_field _ (lit "uuid") (str []) (str a)

module _ ⦃u : Unicode⦄ ⦃n : Numerics⦄ where
  -- The uuid is 64 hexadecimal digits, it is computed from the stamped receipt again, it stands in
  -- the header of that receipt, and nothing else of the receipt or of its header has changed.
  pub record IsStamped (receipt stamped : Fields n.Double) (uuid : Text) : Type 0 where
    pub shape : is_receipt_uuid uuid ≡ true
    pub computed : compute_receipt_uuid stamped ≡ uuid
    pub carried : get_field (header_of stamped) (lit "uuid") ≡ some (str uuid)
    pub header :
        (k : Text)
        → text_eq (lit "uuid") k ≡ false
        → get_field (header_of stamped) k ≡ get_field (header_of receipt) k
    pub others :
        (k : Text) → text_eq (lit "header") k ≡ false → get_field stamped k ≡ get_field receipt k

  -- The uuid that a receipt is stamped with is 64 lower-case hexadecimal digits; it stands as the
  -- uuid in the header of the stamped receipt, and is the uuid that is computed from that receipt
  -- again; every other field of the receipt and of its header is what it was.
  pub compute-stamp_receipt_uuid :
      (receipt : Fields n.Double)
      → IsStamped receipt (stamp_receipt_uuid receipt).receipt (stamp_receipt_uuid receipt).uuid
  compute-stamp_receipt_uuid r = record {
    shape =
        (unfold is_receipt_uuid stamp_receipt_uuid in
          (let (len, hex) =
              sha256_hex-IsHex (canonical_serialize_receipt (receipt_with_empty_uuid r)) in
            rw len hex));
    computed =
        (unfold compute_receipt_uuid stamp_receipt_uuid receipt_with_empty_uuid in
          ap (λ t. sha256_hex (canonical_serialize_receipt t)) (empty-with_uuid r _));
    carried =
        (unfold stamp_receipt_uuid in
          ap (λ h. get_field h (lit "uuid")) (header-with_empty_uuid r _)
          ∙ get_field-set_field (header_of r) (lit "uuid") (lit "uuid") _);
    header = λ k e.
        (unfold stamp_receipt_uuid in
          ap (λ h. get_field h k) (header-with_empty_uuid r _)
          ∙ get_field-set_field (header_of r) (lit "uuid") k _
          ∙ rw e refl);
    others = λ k e.
        (unfold stamp_receipt_uuid in
          get_field-with_uuid_other r (receipt_with_empty_uuid r) _ k e);
  }
