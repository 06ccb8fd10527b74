-- ===== src/Receipts/Builder/Sample.antt =====
-- A receipt of one line, built by packages/eta-core/src/receipts/receipt-builder.ts.
use einvoice.Prelude.{
  pos, arith, ◌≡◌, refl, none, some, [], ◌∷◌, lit, ok, thrown, trim, to_upper, ◌+ℤ◌, ◌-ℤ◌,
}
use einvoice.Prelude.Plain.{plain}
use einvoice.Money.{money, format_money, mul, add, sub}
use einvoice.Money.Exact.{exact, read}
use einvoice.Tax.{
  find_duplicate_tax_types, eta_tax_direction, is_fixed_amount_tax_type, is_taxable_fee_tax_type,
  is_non_taxable_fee_tax_type, normalize_tax_type_code,
}
use einvoice.Totals.{
  estimate_eta_item_total, add_taxes, add_tax, compute_tax_amounts, computed_tax, display_rate,
  fixed_loop, fixed_step, fee_loop, fee_step, by_code, set_missing, set_amount, tax_amount_from,
  rest_loop, rest_step,
}
use einvoice.Totals.Maps.{map_get, map_set, map_has}
use einvoice.Totals.Line.{calculate_line, line_discount}
use einvoice.Totals.Document.{
  calculate_document_totals, add_lines, add_line, add_line_taxes, add_line_tax,
}
use einvoice.Json.{Fields, end, get_field, set_field}
use einvoice.Formats.{
  matches, strip_milliseconds, format_eta_date_time_issued, to_eta_decimal_number, Build,
}
use einvoice.Issuer.{normalize_issuer_address}
use einvoice.Builder.{taxable_item}
use einvoice.Builder.Document.{tax_total}
use einvoice.Builder.Sample.{one_time, vat}
use einvoice.Receipts.Types.{sale, as_receipt_type, normalize_receipt_type}
use einvoice.Receipts.Totals.{
  ReceiptLineInput, ReceiptDocumentTotals, entry_amount, sum_entries_loop, add_additional,
  commercial_discount_total, item_discount_total, extra_discount_loop, to_invoice_line_input,
  calculate_receipt_line, calculate_receipt_document_totals,
}
use einvoice.Receipts.Builder.{
  ReceiptBuildInput, address_fields_loop, compact_address, party_loop, compact_party, discount_of,
  discount_object, discount_array, set_discount, item_core, build_item,
}
use einvoice.Receipts.Builder.Receipt.{
  BuiltReceipt, exchange_rate_of, receipt_header, seller_object, buyer_object, extra_discount,
  set_receipt_totals, receipt_payload, stamped_receipt, build_receipt,
}
use einvoice.Receipts.Validator.Built.{HasCents}

abbrev pub receipt_line : ReceiptLineInput
receipt_line = record {
  internal_code = lit " A1 ";
  description = lit "item";
  item_type = lit "GS1";
  item_code = lit "1";
  unit_type = lit "EA";
  quantity = lit "2";
  unit_price = lit "50";
  commercial_discount_data =
      record { amount = some (lit "5"); description = none; rate = none } ∷ [];
  item_discount_data = [];
  additional_commercial_discount = none;
  additional_item_discount = none;
  value_difference = none;
  taxes = vat ∷ [];
}

abbrev pub input : ReceiptBuildInput (exact.Double)
input = record {
  receipt_type = lit " S";
  type_version = none;
  date_time_issued = lit "2026-07-31";
  receipt_number = lit "R-1";
  previous_uuid = [];
  reference_uuid = none;
  currency = [];
  exchange_rate = none;
  s_order_name_code = none;
  orderdelivery_mode = none;
  gross_weight = none;
  net_weight = none;
  seller = record {
    rin = lit "1";
    company_trade_name = lit "Nile";
    branch_code = lit "0";
    branch_address = λ f. none;
    device_serial_number = lit "D1";
    activity_code = lit "4620";
    syndicate_license_number = none;
  };
  buyer = record {
    type = lit "p";
    id = none;
    name = none;
    mobile_number = none;
    payment_number = none;
  };
  lines = receipt_line ∷ [];
  extra_receipt_discount_data = [];
  payment_method = lit "C";
  contractor = none;
  beneficiary = none;
}

abbrev pub value_of :
    Build (Fields (exact.Double) × ReceiptDocumentTotals)
    → Fields (exact.Double) × ReceiptDocumentTotals
value_of (ok p) = p
value_of (thrown e) = (
  end,
  record {
    total_sales = [];
    total_commercial_discount = [];
    total_items_discount = [];
    extra_receipt_discount = [];
    net_amount = [];
    fees_amount = [];
    adjustment = [];
    total_amount = [];
    tax_totals = [];
  },
)

abbrev pub built : BuiltReceipt (exact.Double)
built = stamped_receipt input (value_of (receipt_payload sale input))

-- The receipt is built, with totals of 100.00, 95.00, 108.30, 5.00 and 0.00.
pub built_run : (build_receipt input ≡ ok built) × HasCents built.totals
unfolding build_receipt receipt_payload normalize_receipt_type as_receipt_type exchange_rate_of
    receipt_header seller_object buyer_object extra_discount set_receipt_totals address_fields_loop
    compact_address party_loop compact_party discount_of discount_object discount_array set_discount
    item_core build_item normalize_issuer_address taxable_item tax_total to_eta_decimal_number
    strip_milliseconds matches format_eta_date_time_issued entry_amount sum_entries_loop
    add_additional commercial_discount_total item_discount_total extra_discount_loop
    to_invoice_line_input calculate_receipt_line calculate_receipt_document_totals get_field
    set_field trim to_upper calculate_document_totals add_lines add_line add_line_taxes add_line_tax
    calculate_line line_discount estimate_eta_item_total compute_tax_amounts computed_tax
    display_rate fixed_loop fixed_step fee_loop fee_step by_code set_missing set_amount
    tax_amount_from rest_loop rest_step add_taxes add_tax map_get map_set map_has format_money mul
    add sub read money find_duplicate_tax_types eta_tax_direction is_fixed_amount_tax_type
    is_taxable_fee_tax_type is_non_taxable_fee_tax_type normalize_tax_type_code ◌+ℤ◌ ◌-ℤ◌
built_run = (
  refl,
  (
    (pos 10000, refl, omega arith),
    (pos 9500, refl, omega arith),
    (pos 10830, refl, omega arith),
    (pos 500, refl, omega arith),
    (pos 0, refl, omega arith),
  ),
)
