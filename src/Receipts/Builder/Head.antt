-- ===== src/Receipts/Builder/Head.antt =====
-- The header of the receipt that `buildReceipt` of
-- packages/eta-core/src/receipts/receipt-builder.ts makes, up to the stamp.
use einvoice.Prelude.{
  thrown, ok-injective, ◌≡◌, refl, ◌∙◌, ap, false, Option, none, some, List, [], ◌∷◌, Text, lit,
  trim, has, Unicode, ok, traverse, Ensures, Ensures-bind, Ensures-ok,
}
use einvoice.Money.{Numerics}
use einvoice.Json.{Json, num, str, arr, obj, Fields, end, field, get_field, set_field, items}
use einvoice.Receiver.{set_text}
use einvoice.Formats.{Dates, Build, format_eta_date_time_issued, to_eta_decimal_number}
use einvoice.Builder.{from_calc}
use einvoice.Builder.Document.{tax_total}
use einvoice.Builder.Kept.{
  Keeps, Keeps-refl, Keeps-trans, Keeps-set_field, Keeps-set_text, Keeps-set_object,
}
use einvoice.Receipts.Types.{ReceiptType, sale, return_sale, service_receipt}
use einvoice.Receipts.Totals.{
  ReceiptDocumentTotals, calculate_receipt_line, calculate_receipt_document_totals,
}
use einvoice.Receipts.Builder.{
  ReceiptBuildInput, optional_string, set_list, set_decimal, compact_party, build_item, from_build,
}
use einvoice.Receipts.Builder.Receipt.{
  exchange_rate_of, receipt_header, set_reference, receipt_currency, extra_discount,
  set_receipt_totals, document_type_object, receipt_payload,
}

abbrev header_keys : List Text
header_keys = lit "dateTimeIssued" ∷ lit "receiptNumber" ∷ lit "previousUUID" ∷ []

abbrev part_keys : List Text
part_keys = lit "header" ∷ lit "documentType" ∷ []

pub from_build-returned : {A : Type 0} (m : Build A) (a : A) → from_build m ≡ ok a → m ≡ ok a
from_build-returned (ok b) a e = ap ok (ok-injective e)
from_build-returned (thrown t) a e = cc

pub Keeps-set_list :
    {N : Type 0} (keys : List Text) (fs : Fields N) (k : Text) (vs : List (Json N))
    → has keys k ≡ false
    → Keeps keys fs (set_list fs k vs)
Keeps-set_list keys fs k [] e = Keeps-refl keys fs
Keeps-set_list keys fs k (v ∷ vs) e = Keeps-set_field keys fs k (arr (items (v ∷ vs))) e

module _ ⦃u : Unicode⦄ ⦃n : Numerics⦄ where
  Keeps-set_reference :
      (fs : Fields n.Double) (type : ReceiptType) (reference : Text)
      → Keeps header_keys fs (set_reference fs type reference)
  Keeps-set_reference fs return_sale s =
      Keeps-set_field header_keys fs (lit "referenceUUID") (str s) refl
  Keeps-set_reference fs sale s = Keeps-set_text header_keys fs (lit "referenceUUID") s refl
  Keeps-set_reference fs service_receipt s =
      Keeps-set_text header_keys fs (lit "referenceUUID") s refl

  set_decimal-Keeps :
      (keys : List Text) (fs : Fields n.Double) (k : Text) (o : Option Text)
      → has keys k ≡ false
      → Ensures (Keeps keys fs) (set_decimal fs k o)
  set_decimal-Keeps keys fs k none e = Ensures-ok (Keeps-refl keys fs)
  set_decimal-Keeps keys fs k (some []) e = Ensures-ok (Keeps-refl keys fs)
  set_decimal-Keeps keys fs k (some (c ∷ s)) e =
      Ensures-bind (to_eta_decimal_number (c ∷ s))
        λ x _. Ensures-ok (Keeps-set_field keys fs k (num x) e)

  -- The fields of the header that are those of the input.
  pub record IsHeader (input : ReceiptBuildInput n.Double) (date : Text) (header : Fields n.Double)
      : Type 0 where
    pub date_time_issued : get_field header (lit "dateTimeIssued") ≡ some (str date)
    pub receipt_number :
        get_field header (lit "receiptNumber") ≡ some (str (trim input.receipt_number))
    pub previous_uuid : get_field header (lit "previousUUID") ≡ some (str input.previous_uuid)

  Keeps-IsHeader :
      (input : ReceiptBuildInput n.Double) (date : Text) (a b : Fields n.Double)
      → Keeps header_keys a b
      → IsHeader input date a
      → IsHeader input date b
  Keeps-IsHeader input date a b k h = record {
    date_time_issued = k.kept (lit "dateTimeIssued") refl ∙ h.date_time_issued;
    receipt_number = k.kept (lit "receiptNumber") refl ∙ h.receipt_number;
    previous_uuid = k.kept (lit "previousUUID") refl ∙ h.previous_uuid;
  }

  receipt_header-IsHeader :
      (type : ReceiptType) (input : ReceiptBuildInput n.Double) (rate : n.Double) (date : Text)
      → Ensures (IsHeader input date) (receipt_header type input rate date)
  unfolding receipt_header get_field
  receipt_header-IsHeader type input rate date =
      let base = field (lit "dateTimeIssued") (str date) (
        field (lit "receiptNumber") (str (trim input.receipt_number)) (
          field (lit "uuid") (str [])
            (field (lit "previousUUID") (str input.previous_uuid) end))) in
      let referring = set_reference base type (optional_string input.reference_uuid) in
      let priced = set_field referring (lit "currency") (str (receipt_currency input.currency)) in
      let rated = set_field priced (lit "exchangeRate") (num rate) in
      let ordered =
        set_text rated (lit "sOrderNameCode") (optional_string input.s_order_name_code) in
      let delivered =
        set_text ordered (lit "orderdeliveryMode") (optional_string input.orderdelivery_mode) in
      let k1 = Keeps-trans (Keeps-set_reference base type (optional_string input.reference_uuid)) (
        Keeps-set_field header_keys referring (lit "currency")
          (str (receipt_currency input.currency)) refl) in
      let k2 =
        Keeps-trans k1 (Keeps-set_field header_keys priced (lit "exchangeRate") (num rate) refl) in
      let k3 = Keeps-trans k2 (
        Keeps-set_text header_keys rated (lit "sOrderNameCode")
          (optional_string input.s_order_name_code) refl) in
      let k4 = Keeps-trans k3 (
        Keeps-set_text header_keys ordered (lit "orderdeliveryMode")
          (optional_string input.orderdelivery_mode) refl) in
      Ensures-bind (set_decimal delivered (lit "grossWeight") input.gross_weight) λ gross eg.
        record {
          holds = λ header eh.
              let k5 = Keeps-trans k4 (
                (set_decimal-Keeps header_keys delivered (lit "grossWeight") input.gross_weight
                    refl).holds
                  gross eg) in
              let k6 = Keeps-trans k5 (
                (set_decimal-Keeps header_keys gross (lit "netWeight") input.net_weight refl).holds
                  header eh) in
              Keeps-IsHeader input date base header k6
                (record { date_time_issued = refl; receipt_number = refl; previous_uuid = refl });
        }

  set_receipt_totals-Keeps :
      (out : Fields n.Double) (input : ReceiptBuildInput n.Double) (t : ReceiptDocumentTotals)
      → Ensures (Keeps part_keys out) (set_receipt_totals out input t)
  unfolding set_receipt_totals
  set_receipt_totals-Keeps out input t =
      Ensures-bind (traverse extra_discount input.extra_receipt_discount_data) λ extras _.
        Ensures-bind (to_eta_decimal_number t.net_amount) λ net _.
          Ensures-bind (to_eta_decimal_number t.total_amount) λ total _.
            Ensures-bind (traverse tax_total t.tax_totals) λ taxes _.
              let k0 = Keeps-set_list part_keys out (lit "extraReceiptDiscountData") extras refl in
              let k1 =
                Keeps-trans k0 (Keeps-set_field part_keys _ (lit "netAmount") (num net) refl) in
              let k2 =
                Keeps-trans k1 (
                  Keeps-set_field part_keys _ (lit "feesAmount") (num (n.number (lit "0"))) refl) in
              let k3 =
                Keeps-trans k2 (Keeps-set_field part_keys _ (lit "totalAmount") (num total) refl) in
              let k4 =
                Keeps-trans k3
                  (Keeps-set_field part_keys _ (lit "taxTotals") (arr (items taxes)) refl) in
              let k5 = Keeps-trans k4 (
                Keeps-set_field part_keys _ (lit "paymentMethod") (str (trim input.payment_method))
                  refl) in
              let k6 =
                Keeps-trans k5 (
                  Keeps-set_field part_keys _ (lit "adjustment") (num (n.number (lit "0"))) refl) in
              let k7 = Keeps-trans k6 (
                Keeps-set_object part_keys _ (lit "contractor") (compact_party input.contractor)
                  refl) in
              Ensures-ok (
                Keeps-trans k7 (
                  Keeps-set_object part_keys _ (lit "beneficiary") (compact_party input.beneficiary)
                    refl))

-- The header and the type of the receipt are those of the input.
pub record IsReceiptHead ⦃u : Unicode⦄ ⦃n : Numerics⦄ ⦃d : Dates⦄ (type : ReceiptType)
    (input : ReceiptBuildInput n.Double) (fs : Fields n.Double) : Type 0 where
  pub date : Text
  pub formatted : format_eta_date_time_issued input.date_time_issued ≡ ok date
  pub header : Fields n.Double
  pub header_field : get_field fs (lit "header") ≡ some (obj header)
  pub header_fields : IsHeader input date header
  pub type_field :
      get_field fs (lit "documentType") ≡ some (document_type_object type input.type_version)

module _ ⦃u : Unicode⦄ ⦃n : Numerics⦄ ⦃d : Dates⦄ where
  pub receipt_payload-IsReceiptHead :
      (type : ReceiptType) (input : ReceiptBuildInput n.Double)
      → Ensures (λ built. IsReceiptHead type input (built.0)) (receipt_payload type input)
  unfolding receipt_payload get_field
  receipt_payload-IsReceiptHead type input =
      Ensures-bind (from_calc (traverse calculate_receipt_line input.lines)) λ computed _.
        Ensures-bind
          (from_calc (calculate_receipt_document_totals computed input.extra_receipt_discount_data))
          λ t _.
            Ensures-bind (exchange_rate_of (receipt_currency input.currency) input.exchange_rate)
              λ rate _. Ensures-bind (format_eta_date_time_issued input.date_time_issued) λ date ed.
                Ensures-bind (receipt_header type input rate date) λ header eh.
                  Ensures-bind (traverse build_item input.lines) λ item_data _.
                    Ensures-bind (to_eta_decimal_number t.total_sales) λ sales _.
                      Ensures-bind (to_eta_decimal_number t.total_commercial_discount)
                        λ commercial _.
                          Ensures-bind (to_eta_decimal_number t.total_items_discount) λ discounts _.
                            Ensures-bind (set_receipt_totals _ input t) λ payload ep.
                              let k = (set_receipt_totals-Keeps _ input t).holds payload ep in
                              Ensures-ok (record {
                                date = date;
                                formatted = ed;
                                header = header;
                                header_field = k.kept (lit "header") refl;
                                header_fields =
                                    (receipt_header-IsHeader type input rate date).holds header eh;
                                type_field = k.kept (lit "documentType") refl;
                              })
