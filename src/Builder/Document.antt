-- ===== src/Builder/Document.antt =====
-- `buildDocumentPayload` of packages/eta-core/src/builders/document.ts.
use einvoice.Prelude.{
  Bool, true, false, Option, none, some, List, [], ◌∷◌, map, Text, lit, Unicode, ok, thrown, ◌>>=◌,
  traverse, if◌then◌else◌,
}
use einvoice.Money.{Numerics, zero_money}
use einvoice.Totals.{or_else}
use einvoice.Totals.Line.{LineInput, LineComputed}
use einvoice.Totals.Document.{DocumentTotals, calculate_document_totals}
use einvoice.Json.{Json, null, num, str, arr, obj, Fields, end, field, get_field, set_field, items}
use einvoice.Receiver.{eta_receiver_for_document, set_object, unless_empty}
use einvoice.Formats.{Dates, Build, format_eta_date_time_issued, to_eta_decimal_number}
use einvoice.Builder.{
  invoice, credit_note, debit_note, export_invoice, export_credit_note, export_debit_note,
  DocumentKind, kind_name, kind_to_eta_type, from_calc, set_given, build_lines,
}

pub record BuildContext (N : Type 0) : Type 0 where
  pub kind : DocumentKind
  pub document_type_version : Text
  pub date_time_issued : Text
  pub internal_id : Text
  pub issuer : Fields N
  pub receiver : Fields N
  pub lines : List LineInput
  pub extra_discount_amount : Option Text
  -- `none` for `null` and `undefined`, here and below.
  pub references : Option (Json N)
  pub taxpayer_activity_code : Option Text
  pub purchase_order_reference : Option Text
  pub purchase_order_description : Option Text
  pub sales_order_reference : Option Text
  pub sales_order_description : Option Text
  pub proforma_invoice_number : Option Text
  pub service_delivery_date : Option Text
  pub payment : Option (Fields N)
  pub delivery : Option (Fields N)
  pub extras : Option (Fields N)

pub record BuiltDocument (N : Type 0) : Type 0 where
  pub eta_payload : Fields N
  pub line_computed : List LineComputed
  pub totals : DocumentTotals

module _ {N : Type 0} where
  -- `value === null || value === ''`
  abbrev pub is_empty_value : Json N → Bool
  is_empty_value null = true
  is_empty_value (str []) = true
  is_empty_value _ = false

  unfoldable pub compact_loop : Fields N → Fields N → Fields N
  compact_loop out end = out
  compact_loop out (field key value fs) =
      compact_loop (if is_empty_value value then out else set_field out key value) fs

  unfoldable pub compact_object : Option (Fields N) → Option (Fields N)
  compact_object none = none
  compact_object (some fs) = unless_empty (compact_loop end fs)

  -- `for (const [k, v] of Object.entries(extras)) out[k] = v`
  unfoldable pub assign : Fields N → Fields N → Fields N
  assign out end = out
  assign out (field key value fs) = assign (set_field out key value) fs

  abbrev pub set_present : Fields N → Text → Option (Json N) → Fields N
  set_present out key none = out
  set_present out key (some v) = set_field out key v

  abbrev pub assign_given : Fields N → Option (Fields N) → Fields N
  assign_given out none = out
  assign_given out (some fs) = assign out fs

module _ ⦃n : Numerics⦄ where
  -- `if (typeof out[key] === 'string') out[key] = n(out[key])`
  abbrev pub as_weight : Fields n.Double → Text → Option (Json n.Double) → Build (Fields n.Double)
  as_weight out key (some (str s)) = to_eta_decimal_number s >>= λ x. ok (set_field out key (num x))
  as_weight out key _ = ok out

  -- A date that cannot be formatted stays as it is.
  abbrev pub formatted_or : Text → Build Text → Text
  formatted_or s (ok t) = t
  formatted_or s (thrown e) = s

  abbrev pub as_date :
      ⦃d : Dates⦄ → Fields n.Double → Text → Option (Json n.Double) → Fields n.Double
  as_date out key (some (str (c ∷ s))) =
      set_field out key (str (formatted_or (c ∷ s) (format_eta_date_time_issued (c ∷ s))))
  as_date out key _ = out

  unfoldable pub convert_delivery : ⦃d : Dates⦄ → Fields n.Double → Build (Fields n.Double)
  convert_delivery fs = do
    gross ← as_weight fs (lit "grossWeight") (get_field fs (lit "grossWeight"))
    net ← as_weight gross (lit "netWeight") (get_field gross (lit "netWeight"))
    ok (as_date net (lit "dateValidity") (get_field net (lit "dateValidity")))

  unfoldable pub set_delivery :
      ⦃d : Dates⦄ → Fields n.Double → Option (Fields n.Double) → Build (Fields n.Double)
  set_delivery out none = ok out
  set_delivery out (some fs) =
      convert_delivery fs >>= λ delivery. ok (set_field out (lit "delivery") (obj delivery))

  unfoldable pub tax_total : Text × Text → Build (Json n.Double)
  tax_total (code, amount) = to_eta_decimal_number amount >>= λ x.
      ok (obj (field (lit "taxType") (str code) (field (lit "amount") (num x) end)))

  -- The seven assignments after those of the lines.
  unfoldable pub set_totals : Fields n.Double → DocumentTotals → Build (Fields n.Double)
  set_totals out t = do
    discounts ← to_eta_decimal_number t.total_discount_amount
    sales ← to_eta_decimal_number t.total_sales_amount
    net ← to_eta_decimal_number t.net_amount
    taxes ← traverse tax_total t.tax_totals
    total ← to_eta_decimal_number t.total_amount
    extra ← to_eta_decimal_number t.extra_discount_amount
    items_discount ← to_eta_decimal_number t.total_items_discount_amount
    let s1 = set_field out (lit "totalDiscountAmount") (num discounts)
    let s2 = set_field s1 (lit "totalSalesAmount") (num sales)
    let s3 = set_field s2 (lit "netAmount") (num net)
    let s4 = set_field s3 (lit "taxTotals") (arr (items taxes))
    let s5 = set_field s4 (lit "totalAmount") (num total)
    let s6 = set_field s5 (lit "extraDiscountAmount") (num extra)
    ok (set_field s6 (lit "totalItemsDiscountAmount") (num items_discount))

  -- The orders' texts that are given.
  unfoldable pub set_orders : Fields n.Double → BuildContext n.Double → Fields n.Double
  set_orders out ctx =
      let o1 = set_given out (lit "purchaseOrderReference") ctx.purchase_order_reference in
      let o2 = set_given o1 (lit "purchaseOrderDescription") ctx.purchase_order_description in
      let o3 = set_given o2 (lit "salesOrderReference") ctx.sales_order_reference in
      let o4 = set_given o3 (lit "salesOrderDescription") ctx.sales_order_description in
      let o5 = set_given o4 (lit "proformaInvoiceNumber") ctx.proforma_invoice_number in
      set_given o5 (lit "serviceDeliveryDate") ctx.service_delivery_date

module _ ⦃u : Unicode⦄ ⦃n : Numerics⦄ ⦃d : Dates⦄ where
  -- The payload up to the issuer's own number of the document.
  unfoldable pub payload_head : BuildContext n.Double → Build (Fields n.Double)
  payload_head ctx = do
    let receiver = eta_receiver_for_document (kind_name ctx.kind) (some (obj ctx.receiver))
    date ← format_eta_date_time_issued ctx.date_time_issued
    ok (
        field (lit "issuer") (obj ctx.issuer) (
          field (lit "receiver") (obj receiver) (
            field (lit "documentType") (str (kind_to_eta_type ctx.kind)) (
              field (lit "documentTypeVersion") (str ctx.document_type_version) (
                field (lit "dateTimeIssued") (str date) (
                  field (lit "taxpayerActivityCode") (str (or_else ctx.taxpayer_activity_code []))
                    (field (lit "internalID") (str ctx.internal_id) end)))))))

  unfoldable pub build_document_payload : BuildContext n.Double → Build (BuiltDocument n.Double)
  build_document_payload ctx = do
    built ← build_lines ctx.lines
    let computed = map (λ b. b.0) built
    totals ←
        from_calc
          (calculate_document_totals computed (or_else ctx.extra_discount_amount zero_money))
    head ← payload_head ctx
    let paid = set_object (set_orders head ctx) (lit "payment") (compact_object ctx.payment)
    delivered ← set_delivery paid (compact_object ctx.delivery)
    let referring = set_present delivered (lit "references") ctx.references
    let with_lines =
        set_field referring (lit "invoiceLines") (arr (items (map (λ b. obj (b.1)) built)))
    summed ← set_totals with_lines totals
    ok (record {
      eta_payload = assign_given summed ctx.extras;
      line_computed = computed;
      totals = totals;
    })

  -- The context has no kind of its own: that of `ctx` is not read, here and below.
  unfoldable pub build_by_kind :
      DocumentKind → BuildContext n.Double → Build (BuiltDocument n.Double)
  build_by_kind kind ctx = build_document_payload (record ctx { kind = kind })

  unfoldable pub build_invoice : BuildContext n.Double → Build (BuiltDocument n.Double)
  build_invoice ctx = build_document_payload (record ctx { kind = invoice })

  unfoldable pub build_credit_note : BuildContext n.Double → Build (BuiltDocument n.Double)
  build_credit_note ctx = build_document_payload (record ctx { kind = credit_note })

  unfoldable pub build_debit_note : BuildContext n.Double → Build (BuiltDocument n.Double)
  build_debit_note ctx = build_document_payload (record ctx { kind = debit_note })

  unfoldable pub build_export_invoice : BuildContext n.Double → Build (BuiltDocument n.Double)
  build_export_invoice ctx = build_document_payload (record ctx { kind = export_invoice })

  unfoldable pub build_export_credit_note : BuildContext n.Double → Build (BuiltDocument n.Double)
  build_export_credit_note ctx = build_document_payload (record ctx { kind = export_credit_note })

  unfoldable pub build_export_debit_note : BuildContext n.Double → Build (BuiltDocument n.Double)
  build_export_debit_note ctx = build_document_payload (record ctx { kind = export_debit_note })
