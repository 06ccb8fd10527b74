-- ===== src/Receipts/Builder/Receipt.antt =====
-- `buildReceipt` of packages/eta-core/src/receipts/receipt-builder.ts.
use einvoice.Prelude.{
  Option, [], Text, lit, text_eq, trim, to_upper, Unicode, Result, ok, thrown, ◌>>=◌, traverse,
  length, leb, if◌then◌else◌,
}
use einvoice.Money.{Numerics, format_money}
use einvoice.Totals.{or_else}
use einvoice.Json.{Json, num, str, arr, obj, Fields, end, field, set_field, items}
use einvoice.Receiver.{set_text, set_object}
use einvoice.Formats.{Dates, Build, format_eta_date_time_issued, to_eta_decimal_number}
use einvoice.Builder.{from_calc}
use einvoice.Builder.Document.{tax_total}
use einvoice.Receipts.Types.{
  ReceiptType, sale, return_sale, service_receipt, receipt_type_text, receipt_type_version,
  max_receipt_lines, normalize_receipt_type,
}
use einvoice.Receipts.Totals.{
  ReceiptExtraDiscount, ReceiptDocumentTotals, calculate_receipt_line,
  calculate_receipt_document_totals,
}
use einvoice.Receipts.Uuid.{stamp_receipt_uuid}
use einvoice.Receipts.Builder.{
  ReceiptError, too_many_lines, from_build, from_type, ReceiptSellerInput, ReceiptBuyerInput,
  ReceiptBuildInput, optional_string, text_or, compact_address, compact_party, set_list,
  set_decimal, build_item,
}

module _ ⦃u : Unicode⦄ ⦃n : Numerics⦄ where
  -- `currency === 'EGP' ? 0 : n(exchangeRate ?? 0)`
  unfoldable pub exchange_rate_of : Text → Option Text → Build n.Double
  exchange_rate_of currency rate =
      if text_eq currency (lit "EGP")
      then ok (n.number (lit "0"))
      else to_eta_decimal_number (or_else rate (lit "0"))

  -- The reference of a return is always written, that of another receipt only where there is one.
  abbrev pub set_reference : Fields n.Double → ReceiptType → Text → Fields n.Double
  set_reference out return_sale reference = set_field out (lit "referenceUUID") (str reference)
  set_reference out sale reference = set_text out (lit "referenceUUID") reference
  set_reference out service_receipt reference = set_text out (lit "referenceUUID") reference

  abbrev pub receipt_currency : Text → Text
  receipt_currency currency = to_upper (trim (text_or currency (lit "EGP")))

  unfoldable pub receipt_header :
      ReceiptType → ReceiptBuildInput n.Double → n.Double → Text → Build (Fields n.Double)
  receipt_header type input rate date = do
    let base = field (lit "dateTimeIssued") (str date) (
        field (lit "receiptNumber") (str (trim input.receipt_number))
          (field (lit "uuid") (str []) (field (lit "previousUUID") (str input.previous_uuid) end)))
    let referring = set_reference base type (optional_string input.reference_uuid)
    let priced = set_field referring (lit "currency") (str (receipt_currency input.currency))
    let rated = set_field priced (lit "exchangeRate") (num rate)
    let ordered = set_text rated (lit "sOrderNameCode") (optional_string input.s_order_name_code)
    let delivered =
        set_text ordered (lit "orderdeliveryMode") (optional_string input.orderdelivery_mode)
    gross ← set_decimal delivered (lit "grossWeight") input.gross_weight
    set_decimal gross (lit "netWeight") input.net_weight

  unfoldable pub seller_object : ReceiptSellerInput → Fields n.Double
  seller_object s =
      set_text
        (field (lit "rin") (str (trim s.rin)) (
          field (lit "companyTradeName") (str (trim s.company_trade_name)) (
            field (lit "branchCode") (str (trim s.branch_code)) (
              field (lit "branchAddress") (obj (compact_address s.branch_address)) (
                field (lit "deviceSerialNumber") (str (trim s.device_serial_number))
                  (field (lit "activityCode") (str (trim s.activity_code)) end))))))
        (lit "syndicateLicenseNumber") (optional_string s.syndicate_license_number)

  unfoldable pub buyer_object : ReceiptBuyerInput → Fields n.Double
  buyer_object b =
      let named = field (lit "type") (str (to_upper (trim b.type))) (
        field (lit "id") (str (optional_string b.id))
          (field (lit "name") (str (optional_string b.name)) end)) in
      set_text (set_text named (lit "mobileNumber") (optional_string b.mobile_number))
        (lit "paymentNumber") (optional_string b.payment_number)

  unfoldable pub extra_discount : ReceiptExtraDiscount → Build (Json n.Double)
  extra_discount row = do
    amount ← from_calc (format_money row.amount)
    x ← to_eta_decimal_number amount
    ok (
        obj (
          set_text (field (lit "amount") (num x) end) (lit "description")
            (optional_string row.description)))

  abbrev pub type_version_of : Option Text → Text
  type_version_of version = text_or (optional_string version) receipt_type_version

  abbrev pub document_type_object : ReceiptType → Option Text → Json n.Double
  document_type_object type version = obj (
      field (lit "receiptType") (str (receipt_type_text type))
        (field (lit "typeVersion") (str (type_version_of version)) end))

  -- What is set after the items and the first three totals.
  unfoldable pub set_receipt_totals :
      Fields n.Double → ReceiptBuildInput n.Double → ReceiptDocumentTotals → Build (Fields n.Double)
  set_receipt_totals out input totals = do
    extras ← traverse extra_discount input.extra_receipt_discount_data
    let e = set_list out (lit "extraReceiptDiscountData") extras
    net ← to_eta_decimal_number totals.net_amount
    let f =
        set_field (set_field e (lit "netAmount") (num net)) (lit "feesAmount")
          (num (n.number (lit "0")))
    total ← to_eta_decimal_number totals.total_amount
    taxes ← traverse tax_total totals.tax_totals
    let g =
        set_field (set_field f (lit "totalAmount") (num total)) (lit "taxTotals")
          (arr (items taxes))
    let h = set_field g (lit "paymentMethod") (str (trim input.payment_method))
    let i = set_field h (lit "adjustment") (num (n.number (lit "0")))
    ok (
        set_object (set_object i (lit "contractor") (compact_party input.contractor))
          (lit "beneficiary") (compact_party input.beneficiary))

-- What `buildReceipt` returns.
pub record BuiltReceipt (N : Type 0) : Type 0 where
  pub eta_payload : Fields N
  pub uuid : Text
  pub previous_uuid : Text
  pub uuid_canonical_string : Text
  pub canonical_string : Text
  pub totals : ReceiptDocumentTotals

module _ ⦃u : Unicode⦄ ⦃n : Numerics⦄ ⦃d : Dates⦄ where
  -- The receipt before it is stamped, with its totals.
  unfoldable pub receipt_payload :
      ReceiptType → ReceiptBuildInput n.Double → Build (Fields n.Double × ReceiptDocumentTotals)
  receipt_payload type input = do
    computed ← from_calc (traverse calculate_receipt_line input.lines)
    totals ←
        from_calc (calculate_receipt_document_totals computed input.extra_receipt_discount_data)
    rate ← exchange_rate_of (receipt_currency input.currency) input.exchange_rate
    date ← format_eta_date_time_issued input.date_time_issued
    header ← receipt_header type input rate date
    item_data ← traverse build_item input.lines
    sales ← to_eta_decimal_number totals.total_sales
    commercial ← to_eta_decimal_number totals.total_commercial_discount
    discounts ← to_eta_decimal_number totals.total_items_discount
    let head = field (lit "header") (obj header) (
        field (lit "documentType") (document_type_object type input.type_version) (
          field (lit "seller") (obj (seller_object input.seller)) (
            field (lit "buyer") (obj (buyer_object input.buyer)) (
              field (lit "itemData") (arr (items item_data)) (
                field (lit "totalSales") (num sales) (
                  field (lit "totalCommercialDiscount") (num commercial)
                    (field (lit "totalItemsDiscount") (num discounts) end)))))))
    payload ← set_receipt_totals head input totals
    ok (payload, totals)

  -- The stamped receipt; the previous uuid is the text of the input.
  abbrev pub stamped_receipt :
      ReceiptBuildInput n.Double → Fields n.Double × ReceiptDocumentTotals → BuiltReceipt n.Double
  stamped_receipt input (payload, totals) =
      let stamped = stamp_receipt_uuid payload in
      record {
        eta_payload = stamped.receipt;
        uuid = stamped.uuid;
        previous_uuid = input.previous_uuid;
        uuid_canonical_string = stamped.uuid_canonical_string;
        canonical_string = stamped.canonical_string;
        totals = totals;
      }

  unfoldable pub build_receipt :
      ReceiptBuildInput n.Double → Result ReceiptError (BuiltReceipt n.Double)
  build_receipt input = do
    type ← from_type (normalize_receipt_type input.receipt_type)
    if leb (length input.lines) max_receipt_lines
        then (from_build (receipt_payload type input) >>= λ built. ok (stamped_receipt input built))
        else thrown too_many_lines
