-- ===== src/Receipts/Builder/Matching.antt =====
-- What the parts of a receipt that `buildReceipt` of
-- packages/eta-core/src/receipts/receipt-builder.ts returns have to do with each other and with its
-- input.
use einvoice.Prelude.{
  ◌≡◌, refl, ◌≤◌, ◌∙◌, ap, true, Bool-cases, inl, inr, some, trim, lit, Text, Result, thrown,
  ok-injective, Unicode, ok, length, leb, leb→le, Ensures, Ensures-bind, Ensures-ok,
}
use einvoice.Money.{Numerics}
use einvoice.Json.{str, Fields, get_field}
use einvoice.Formats.{Dates, format_eta_date_time_issued}
use einvoice.Receipts.Types.{ReceiptType, normalize_receipt_type, max_receipt_lines}
use einvoice.Receipts.Sha256.{sha256_hex}
use einvoice.Receipts.Totals.{ReceiptDocumentTotals}
use einvoice.Receipts.Uuid.{
  is_receipt_uuid, compute_receipt_uuid, canonical_serialize_receipt, stamp_receipt_uuid,
  header_fields,
}
use einvoice.Receipts.Uuid.Stamping.{header_of, compute-stamp_receipt_uuid}
use einvoice.Receipts.Builder.{from_type, from_build, ReceiptBuildInput}
use einvoice.Receipts.Builder.Head.{
  IsReceiptHead, from_build-returned, receipt_payload-IsReceiptHead,
}
use einvoice.Receipts.Builder.Receipt.{
  BuiltReceipt, document_type_object, stamped_receipt, receipt_payload, build_receipt,
}

from_type-returned : {A : Type 0} (m : Result Text A) (a : A) → from_type m ≡ ok a → m ≡ ok a
from_type-returned (ok b) a e = ap ok (ok-injective e)
from_type-returned (thrown t) a e = cc

module _ ⦃u : Unicode⦄ ⦃n : Numerics⦄ ⦃d : Dates⦄ where
  pub record IsMatching (input : ReceiptBuildInput n.Double) (r : BuiltReceipt n.Double)
      : Type 0 where
    -- The uuid is 64 hexadecimal digits, stands in the header of the payload, and is the digest of
    -- the canonical text that is returned for it, and of the payload with an empty uuid.
    pub shape : is_receipt_uuid r.uuid ≡ true
    pub carried : get_field (header_of r.eta_payload) (lit "uuid") ≡ some (str r.uuid)
    pub digest : sha256_hex r.uuid_canonical_string ≡ r.uuid
    pub computed : compute_receipt_uuid r.eta_payload ≡ r.uuid
    -- The canonical text is that of the stamped payload.
    pub canonical : r.canonical_string ≡ canonical_serialize_receipt r.eta_payload
    -- The chain, the number, the date and the type are those of the input.
    pub previous : r.previous_uuid ≡ input.previous_uuid
    pub previous_field :
        get_field (header_of r.eta_payload) (lit "previousUUID") ≡ some (str input.previous_uuid)
    pub number_field :
        get_field (header_of r.eta_payload) (lit "receiptNumber")
        ≡ some (str (trim input.receipt_number))
    pub date : Text
    pub formatted : format_eta_date_time_issued input.date_time_issued ≡ ok date
    pub date_field : get_field (header_of r.eta_payload) (lit "dateTimeIssued") ≡ some (str date)
    pub type : ReceiptType
    pub normalized : normalize_receipt_type input.receipt_type ≡ ok type
    pub type_field :
        get_field r.eta_payload (lit "documentType")
        ≡ some (document_type_object type input.type_version)
    -- The lines are no more than allowed.
    pub lines : length input.lines ≤ max_receipt_lines

  stamped_receipt-IsMatching :
      (input : ReceiptBuildInput n.Double) (type : ReceiptType)
      (built : Fields n.Double × ReceiptDocumentTotals)
      → normalize_receipt_type input.receipt_type ≡ ok type
      → IsReceiptHead type input (built.0)
      → length input.lines ≤ max_receipt_lines
      → IsMatching input (stamped_receipt input built)
  stamped_receipt-IsMatching input type (payload, totals) et h short =
      let s = compute-stamp_receipt_uuid payload in
      let at = ap header_fields h.header_field in
      record {
        shape = s.shape;
        carried = s.carried;
        digest = (unfold stamp_receipt_uuid in refl);
        computed = s.computed;
        canonical = (unfold stamp_receipt_uuid in refl);
        previous = refl;
        previous_field =
            s.header (lit "previousUUID") refl
            ∙ ap (λ x. get_field x (lit "previousUUID")) at
            ∙ h.header_fields.previous_uuid;
        number_field =
            s.header (lit "receiptNumber") refl
            ∙ ap (λ x. get_field x (lit "receiptNumber")) at
            ∙ h.header_fields.receipt_number;
        date = h.date;
        formatted = h.formatted;
        date_field =
            s.header (lit "dateTimeIssued") refl
            ∙ ap (λ x. get_field x (lit "dateTimeIssued")) at
            ∙ h.header_fields.date_time_issued;
        type = type;
        normalized = et;
        type_field = s.others (lit "documentType") refl ∙ h.type_field;
        lines = short;
      }

  build_receipt-Ensures :
      (input : ReceiptBuildInput n.Double) → Ensures (IsMatching input) (build_receipt input)
  unfolding build_receipt
  build_receipt-Ensures input =
      Ensures-bind (from_type (normalize_receipt_type input.receipt_type)) λ type et.
        elim (Bool-cases (leb (length input.lines) max_receipt_lines)) [
          | inl e ↦ rw e (
              Ensures-bind (from_build (receipt_payload type input)) λ built eb. Ensures-ok (
                stamped_receipt-IsMatching input type built (from_type-returned _ type et)
                  ((receipt_payload-IsReceiptHead type input).holds built
                    (from_build-returned _ built eb))
                  (leb→le (length input.lines) max_receipt_lines e)))
          | inr e ↦ rw e (record { holds = λ r h. cc })
        ]

  -- A receipt that `buildReceipt` returns has a uuid of 64 lower-case hexadecimal digits, which
  -- stands in the header of its payload, is the digest of the text that is returned for it, and is
  -- recomputed from the payload; its canonical text is that of the payload; its previous uuid,
  -- number, date and type are those of the input, in the payload too; and its input has at most 300
  -- lines.
  pub build_receipt-IsMatching :
      (input : ReceiptBuildInput n.Double) (r : BuiltReceipt n.Double)
      → build_receipt input ≡ ok r
      → IsMatching input r
  build_receipt-IsMatching input r e = (build_receipt-Ensures input).holds r e
