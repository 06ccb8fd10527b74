-- ===== src/Builder/Sample.antt =====
-- A document of one line, and what packages/eta-core/src/builders/document.ts builds of it.
use einvoice.Prelude.{
  ◌≡◌, refl, none, some, [], ◌∷◌, Text, lit, ok, to_upper, to_lower, trim, pos, ◌+ℤ◌, ◌-ℤ◌,
}
use einvoice.Prelude.Plain.{plain}
use einvoice.Money.{money, format_money, mul, add, sub}
use einvoice.Money.Exact.{exact, read}
use einvoice.Tax.{
  LineTaxInput, find_duplicate_tax_types, eta_tax_direction, additive, deductible, EtaTaxDirection,
  is_fixed_amount_tax_type, is_taxable_fee_tax_type, is_non_taxable_fee_tax_type,
  normalize_tax_type_code,
}
use einvoice.Totals.{
  LineTaxComputed, estimate_eta_item_total, add_taxes, add_tax, compute_tax_amounts, computed_tax,
  display_rate, fixed_loop, fixed_step, fee_loop, fee_step, by_code, set_missing, set_amount,
  tax_amount_from, rest_loop, rest_step,
}
use einvoice.Totals.Maps.{map_get, map_set, map_has}
use einvoice.Totals.Line.{LineInput, calculate_line, line_discount}
use einvoice.Totals.Document.{
  calculate_document_totals, add_lines, add_line, add_line_taxes, add_line_tax,
}
use einvoice.Totals.DocumentSums.{MoneyLine, as_line}
use einvoice.Json.{Json, num, str, arr, obj, Fields, nil, cons, end, field, get_field, set_field}
use einvoice.Json.Strings.{js_string}
use einvoice.Receiver.{
  eta_receiver_for_document, compact_eta_receiver, receiver_fields, normalize_eta_receiver_type,
  fold_receiver_type, pick_field, clean_string, receiver_type_alias, compact_value,
  compact_eta_address, address_loop, extras_loop,
}
use einvoice.Formats.{
  Dates, matches, strip_milliseconds, format_eta_date_time_issued, to_eta_decimal_number,
}
use einvoice.Builder.{
  invoice, set_number, unit_value, taxable_item, line_core, build_line, build_lines,
}
use einvoice.Builder.Document.{
  BuildContext, BuiltDocument, build_document_payload, payload_head, set_totals, set_orders,
  set_delivery, tax_total, compact_object, compact_loop, assign, convert_delivery,
}

-- Every text is read as one time.
instance abbrev pub one_time : Dates
one_time = record { to_iso = λ s. some (lit "2026-07-31T09:16:00.000Z") }

abbrev pub vat : LineTaxInput
vat = record { tax_type = lit "T1"; sub_type = lit "V009"; rate = lit "14"; amount = none }

abbrev withholding : LineTaxInput
withholding = record { tax_type = lit "T4"; sub_type = lit "W001"; rate = lit "1"; amount = none }

abbrev line : LineInput
line = record {
  description = lit "item";
  item_type = lit "GS1";
  item_code = lit "1";
  unit_type = lit "EA";
  quantity = lit "2";
  unit_price = lit "50";
  discount_amount = none;
  discount_rate = none;
  taxes = vat ∷ withholding ∷ [];
  items_discount = none;
  value_difference = none;
  currency_sold = none;
  amount_egp = none;
  amount_sold = none;
  currency_exchange_rate = none;
  internal_code = some (lit "A1");
  weight_unit_type = none;
  weight_quantity = none;
}

abbrev pub context : BuildContext (exact.Double)
context = record {
  kind = invoice;
  document_type_version = lit "1.0";
  date_time_issued = lit "2026-07-31";
  internal_id = lit "INV-1";
  issuer = field (lit "id") (str (lit "1")) end;
  receiver = field (lit "type") (str (lit "B")) end;
  lines = line ∷ [];
  extra_discount_amount = some (lit "3.00");
  references = none;
  taxpayer_activity_code = none;
  purchase_order_reference = none;
  purchase_order_description = none;
  sales_order_reference = none;
  sales_order_description = none;
  proforma_invoice_number = none;
  service_delivery_date = none;
  payment = none;
  delivery = none;
  extras = none;
}

abbrev tax_computed : Text → Text → Text → EtaTaxDirection → LineTaxComputed
tax_computed t s r d = record { tax_type = t; sub_type = s; rate = r; amount = []; direction = d }

-- The line in cents: 100.00, with a tax of 14.00 and a withholding of 1.00.
abbrev pub money_line : MoneyLine
money_line = record {
  base = record {
    sales_total = [];
    discount = [];
    net_total = [];
    tax_amounts = [];
    additive_tax_total = lit "14.00";
    deductible_tax_total = lit "1.00";
    total = [];
    items_discount = [];
    value_difference = lit "0.00";
    total_taxable_fees = lit "0.00";
  };
  sales = pos 10000;
  discount = pos 0;
  items = pos 0;
  net = pos 10000;
  total = pos 11300;
  taxes =
      (tax_computed (lit "T1") (lit "V009") (lit "14") additive, pos 1400)
      ∷ (tax_computed (lit "T4") (lit "W001") (lit "1") deductible, pos 100)
      ∷ [];
}

abbrev number : Text → Json (exact.Double)
number t = num (exact.number t)

abbrev tax_json : Text → Text → Text → Text → Json (exact.Double)
tax_json t a s r = obj (
    field (lit "taxType") (str t) (
      field (lit "amount") (number a)
        (field (lit "subType") (str s) (field (lit "rate") (number r) end))))

abbrev line_json : Json (exact.Double)
line_json = obj (
    field (lit "description") (str (lit "item")) (
      field (lit "itemType") (str (lit "GS1")) (
        field (lit "itemCode") (str (lit "1")) (
          field (lit "unitType") (str (lit "EA")) (
            field (lit "quantity") (number (lit "2")) (
              field (lit "unitValue")
                (obj (
                  field (lit "currencySold") (str (lit "EGP"))
                    (field (lit "amountEGP") (number (lit "50")) end)))
                (field (lit "salesTotal") (number (lit "100")) (
                  field (lit "total") (number (lit "113")) (
                    field (lit "valueDifference") (number (lit "0")) (
                      field (lit "totalTaxableFees") (number (lit "0")) (
                        field (lit "netTotal") (number (lit "100")) (
                          field (lit "itemsDiscount") (number (lit "0")) (
                            field (lit "discount")
                              (obj (
                                field (lit "rate") (number (lit "0"))
                                  (field (lit "amount") (number (lit "0")) end)))
                              (field (lit "taxableItems")
                                (arr (
                                  cons (tax_json (lit "T1") (lit "14") (lit "V009") (lit "14")) (
                                    cons (tax_json (lit "T4") (lit "1") (lit "W001") (lit "1"))
                                      nil)))
                                (field (lit "internalCode") (str (lit "A1")) end)))))))))))))))

abbrev total_json : Text → Text → Json (exact.Double)
total_json t a = obj (field (lit "taxType") (str t) (field (lit "amount") (number a) end))

abbrev payload : Fields (exact.Double)
payload = field (lit "issuer") (obj (field (lit "id") (str (lit "1")) end)) (
    field (lit "receiver") (obj (field (lit "type") (str (lit "B")) end)) (
      field (lit "documentType") (str (lit "I")) (
        field (lit "documentTypeVersion") (str (lit "1.0")) (
          field (lit "dateTimeIssued") (str (lit "2026-07-31T09:16:00Z")) (
            field (lit "taxpayerActivityCode") (str []) (
              field (lit "internalID") (str (lit "INV-1")) (
                field (lit "invoiceLines") (arr (cons line_json nil)) (
                  field (lit "totalDiscountAmount") (number (lit "0")) (
                    field (lit "totalSalesAmount") (number (lit "100")) (
                      field (lit "netAmount") (number (lit "100")) (
                        field (lit "taxTotals")
                          (arr (
                            cons (total_json (lit "T1") (lit "14"))
                              (cons (total_json (lit "T4") (lit "1")) nil)))
                          (field (lit "totalAmount") (number (lit "110")) (
                            field (lit "extraDiscountAmount") (number (lit "3")) (
                              field (lit "totalItemsDiscountAmount") (number (lit "0"))
                                end))))))))))))))

abbrev pub built_document : BuiltDocument (exact.Double)
built_document = record {
  eta_payload = payload;
  line_computed = as_line money_line ∷ [];
  totals = record {
    total_sales_amount = lit "100.00";
    total_discount_amount = lit "0.00";
    net_amount = lit "100.00";
    total_amount = lit "110.00";
    total_items_discount_amount = lit "0.00";
    extra_discount_amount = lit "3.00";
    tax_totals = (lit "T1", lit "14.00") ∷ (lit "T4", lit "1.00") ∷ [];
  };
}

pub build_run : build_document_payload context ≡ ok built_document
unfolding build_document_payload payload_head set_totals set_orders set_delivery tax_total
    compact_object compact_loop assign convert_delivery set_number unit_value taxable_item line_core
    build_line build_lines to_eta_decimal_number strip_milliseconds matches
    format_eta_date_time_issued eta_receiver_for_document compact_eta_receiver receiver_fields
    normalize_eta_receiver_type fold_receiver_type pick_field clean_string receiver_type_alias
    compact_value compact_eta_address address_loop extras_loop get_field set_field trim to_lower
    to_upper js_string calculate_document_totals add_lines add_line add_line_taxes add_line_tax
    calculate_line line_discount estimate_eta_item_total compute_tax_amounts computed_tax
    display_rate fixed_loop fixed_step fee_loop fee_step by_code set_missing set_amount
    tax_amount_from rest_loop rest_step add_taxes add_tax map_get map_set map_has format_money mul
    add sub read money find_duplicate_tax_types eta_tax_direction is_fixed_amount_tax_type
    is_taxable_fee_tax_type is_non_taxable_fee_tax_type normalize_tax_type_code ◌+ℤ◌ ◌-ℤ◌
build_run = refl
