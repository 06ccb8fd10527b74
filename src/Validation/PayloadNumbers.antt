-- ===== src/Validation/PayloadNumbers.antt =====
-- The numbers of the totals and the lines of a payload that
-- packages/eta-core/src/builders/document.ts makes.
use einvoice.Prelude.{
  ◌≡◌, refl, sym, subst, none, some, List, [], ◌∷◌, map, Text, lit, Unicode, traverse, Ensures,
  Ensures-bind, Ensures-ok, All,
}
use einvoice.Money.{Numerics, zero_money}
use einvoice.Totals.{or_else}
use einvoice.Totals.Document.{DocumentTotals, calculate_document_totals}
use einvoice.Totals.Line.{LineComputed}
use einvoice.Json.{Json, num, str, arr, obj, Fields, end, field, get_field, set_field, items}
use einvoice.Json.Objects.{get_field-set_field}
use einvoice.Receiver.{set_object}
use einvoice.Formats.{Dates, to_eta_decimal_number}
use einvoice.Builder.{from_calc, build_line, build_lines}
use einvoice.Builder.Document.{
  BuildContext, assign_given, set_present, compact_object, tax_total, set_delivery, set_orders,
  set_totals, payload_head, build_document_payload,
}
use einvoice.Builder.Payload.{lines_json}
use einvoice.Validation.Document.{decimal_doc_paths}
use einvoice.Validation.Numbers.{IsNumber, finite_of, HasNumbers, build_lines-HasNumbers}

module _ ⦃n : Numerics⦄ where
  -- An object whose amount is a finite number.
  abbrev pub IsTaxTotal : Json n.Double → Type 0
  IsTaxTotal v = (fs : Fields n.Double) × (v ≡ obj fs) × IsNumber fs (lit "amount")

  tax_total-IsTaxTotal : (t : Text × Text) → Ensures IsTaxTotal (tax_total t)
  unfolding tax_total get_field
  tax_total-IsTaxTotal (code, amount) = Ensures-bind (to_eta_decimal_number amount) λ x e.
      Ensures-ok (
        field (lit "taxType") (str code) (field (lit "amount") (num x) end),
        refl,
        finite_of amount x e,
      )

  tax_totals-IsTaxTotal :
      (ts : List (Text × Text)) → Ensures (All IsTaxTotal) (traverse tax_total ts)
  tax_totals-IsTaxTotal [] = Ensures-ok tt
  tax_totals-IsTaxTotal (t ∷ ts) = Ensures-bind (tax_total t) λ v e.
      Ensures-bind (traverse tax_total ts) λ vs es.
        Ensures-ok ((tax_total-IsTaxTotal t).holds v e, (tax_totals-IsTaxTotal ts).holds vs es)

  -- The numbers of the document that are checked.
  pub record HasTotals (lines : Json n.Double) (fs : Fields n.Double) : Type 0 where
    pub decimals : All (IsNumber fs) decimal_doc_paths
    pub taxes : List (Json n.Double)
    pub taxes_field : get_field fs (lit "taxTotals") ≡ some (arr (items taxes))
    pub each : All IsTaxTotal taxes
    pub lines_field : get_field fs (lit "invoiceLines") ≡ some lines

  set_totals-HasTotals :
      (before : Fields n.Double) (lines : Json n.Double) (t : DocumentTotals)
      → Ensures (HasTotals lines) (set_totals (set_field before (lit "invoiceLines") lines) t)
  unfolding set_totals
  set_totals-HasTotals before lines t =
      Ensures-bind (to_eta_decimal_number t.total_discount_amount) λ d ed.
        Ensures-bind (to_eta_decimal_number t.total_sales_amount) λ s es.
          Ensures-bind (to_eta_decimal_number t.net_amount) λ net en.
            Ensures-bind (traverse tax_total t.tax_totals) λ taxes ex.
              Ensures-bind (to_eta_decimal_number t.total_amount) λ total et.
                Ensures-bind (to_eta_decimal_number t.extra_discount_amount) λ extra ee.
                  Ensures-bind (to_eta_decimal_number t.total_items_discount_amount) λ i ei.
                    Ensures-ok (record {
                      decimals = (
                        simp (get_field-set_field, finite_of _ s es),
                        (
                          simp (get_field-set_field, finite_of _ d ed),
                          (
                            simp (get_field-set_field, finite_of _ net en),
                            (
                              simp (get_field-set_field, finite_of _ total et),
                              (
                                simp (get_field-set_field, finite_of _ extra ee),
                                (simp (get_field-set_field, finite_of _ i ei), tt),
                              ),
                            ),
                          ),
                        ),
                      );
                      taxes = taxes;
                      taxes_field = simp (get_field-set_field);
                      each = (tax_totals-IsTaxTotal t.tax_totals).holds taxes ex;
                      lines_field = simp (get_field-set_field);
                    })

  -- A payload of lines with numbers.
  pub record HasPayload (fs : Fields n.Double) : Type 0 where
    pub built : List (LineComputed × Fields n.Double)
    pub lines : All (λ b. HasNumbers (b.1)) built
    pub totals : HasTotals (lines_json built) fs

module _ ⦃u : Unicode⦄ ⦃n : Numerics⦄ ⦃dates : Dates⦄ where
  pub build_document_payload-HasPayload :
      (ctx : BuildContext n.Double)
      → ctx.extras ≡ none
      → Ensures (λ d. HasPayload d.eta_payload) (build_document_payload ctx)
  unfolding build_document_payload build_lines
  build_document_payload-HasPayload ctx no_extras =
      Ensures-bind (traverse build_line ctx.lines) λ bs eb.
        Ensures-bind
          (from_calc (
            calculate_document_totals (map (λ b. b.0) bs)
              (or_else ctx.extra_discount_amount zero_money)))
          λ totals _. Ensures-bind (payload_head ctx) λ head _.
            Ensures-bind
              (set_delivery
                (set_object (set_orders head ctx) (lit "payment") (compact_object ctx.payment))
                (compact_object ctx.delivery))
              λ delivered _.
                let referring = set_present delivered (lit "references") ctx.references in
                Ensures-bind
                  (set_totals (set_field referring (lit "invoiceLines") (lines_json bs)) totals)
                  λ summed es. Ensures-ok (
                    subst (λ o. HasPayload (assign_given summed o)) (sym no_extras)
                      (record {
                        built = bs;
                        lines = (build_lines-HasNumbers ctx.lines).holds bs eb;
                        totals =
                            (set_totals-HasTotals referring (lines_json bs) totals).holds summed es;
                      }))
