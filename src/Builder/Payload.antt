-- ===== src/Builder/Payload.antt =====
-- What the payload holds that `buildDocumentPayload` of packages/eta-core/src/builders/document.ts
-- makes.
use einvoice.Prelude.{
  ◌≡◌, refl, ◌∙◌, none, some, List, [], ◌∷◌, map, lit, Unicode, ok, traverse, Ensures, Ensures-bind,
  Ensures-ok, All,
}
use einvoice.Money.{Numerics, zero_money}
use einvoice.Totals.{or_else}
use einvoice.Totals.Line.{LineInput, LineComputed}
use einvoice.Totals.Document.{DocumentTotals, calculate_document_totals}
use einvoice.Json.{Json, num, arr, obj, Fields, get_field, set_field, items}
use einvoice.Json.Objects.{get_field-set_field}
use einvoice.Receiver.{set_object}
use einvoice.Formats.{Dates, to_eta_decimal_number}
use einvoice.Builder.{from_calc, build_line, build_lines}
use einvoice.Builder.Document.{
  BuildContext, BuiltDocument, tax_total, set_totals, set_delivery, set_orders, compact_object,
  set_present, payload_head, build_document_payload,
}
use einvoice.Builder.Lines.{
  to_eta_decimal_number-Ensures, from_calc-returned, IsBuilt, build_line-IsBuilt,
}

abbrev pub lines_json : {N : Type 0} → List (LineComputed × Fields N) → Json N
lines_json bs = arr (items (map (λ b. obj (b.1)) bs))

module _ ⦃n : Numerics⦄ where
  -- The numbers of the totals, and the lines that were there before.
  pub record SumsSent (before : Fields n.Double) (t : DocumentTotals) (fs : Fields n.Double)
      : Type 0 where
    pub lines : get_field fs (lit "invoiceLines") ≡ get_field before (lit "invoiceLines")
    pub net_amount : get_field fs (lit "netAmount") ≡ some (num (n.number t.net_amount))
    pub total_amount : get_field fs (lit "totalAmount") ≡ some (num (n.number t.total_amount))
    pub extra_discount :
        get_field fs (lit "extraDiscountAmount") ≡ some (num (n.number t.extra_discount_amount))

  set_totals-SumsSent :
      (out : Fields n.Double) (t : DocumentTotals) → Ensures (SumsSent out t) (set_totals out t)
  unfolding set_totals
  set_totals-SumsSent out t = Ensures-bind (to_eta_decimal_number t.total_discount_amount) λ d _.
      Ensures-bind (to_eta_decimal_number t.total_sales_amount) λ s _.
        Ensures-bind (to_eta_decimal_number t.net_amount) λ net en.
          Ensures-bind (traverse tax_total t.tax_totals) λ taxes _.
            Ensures-bind (to_eta_decimal_number t.total_amount) λ total et.
              Ensures-bind (to_eta_decimal_number t.extra_discount_amount) λ extra ee.
                Ensures-bind (to_eta_decimal_number t.total_items_discount_amount) λ i _.
                  Ensures-ok (record {
                    lines = simp (get_field-set_field);
                    net_amount = simp (
                      get_field-set_field,
                      (to_eta_decimal_number-Ensures t.net_amount).holds net en,
                    );
                    total_amount = simp (
                      get_field-set_field,
                      (to_eta_decimal_number-Ensures t.total_amount).holds total et,
                    );
                    extra_discount = simp (
                      get_field-set_field,
                      (to_eta_decimal_number-Ensures t.extra_discount_amount).holds extra ee,
                    );
                  })

module _ ⦃u : Unicode⦄ ⦃n : Numerics⦄ where
  abbrev pub EachBuilt : List (LineComputed × Fields n.Double) → Type 0
  EachBuilt = All (λ b. (line : LineInput) × IsBuilt line b)

  build_lines-Ensures : (lines : List LineInput) → Ensures EachBuilt (traverse build_line lines)
  build_lines-Ensures [] = Ensures-ok tt
  build_lines-Ensures (l ∷ ls) = Ensures-bind (build_line l) λ b e.
      Ensures-bind (traverse build_line ls) λ bs es.
        Ensures-ok ((l, (build_line-IsBuilt l).holds b e), (build_lines-Ensures ls).holds bs es)

  -- A document built with no extras: its lines and its totals.
  pub record Delivers (ctx : BuildContext n.Double) (d : BuiltDocument n.Double) : Type 0 where
    pub built : List (LineComputed × Fields n.Double)
    pub each : EachBuilt built
    pub computed : d.line_computed ≡ map (λ b. b.0) built
    pub totals_computed :
        calculate_document_totals d.line_computed (or_else ctx.extra_discount_amount zero_money)
        ≡ ok d.totals
    pub lines : get_field d.eta_payload (lit "invoiceLines") ≡ some (lines_json built)
    pub net_amount :
        get_field d.eta_payload (lit "netAmount") ≡ some (num (n.number d.totals.net_amount))
    pub total_amount :
        get_field d.eta_payload (lit "totalAmount") ≡ some (num (n.number d.totals.total_amount))
    pub extra_discount :
        get_field d.eta_payload (lit "extraDiscountAmount")
        ≡ some (num (n.number d.totals.extra_discount_amount))

module _ ⦃u : Unicode⦄ ⦃n : Numerics⦄ ⦃dates : Dates⦄ where
  pub build_document_payload-Delivers :
      (ctx : BuildContext n.Double)
      → ctx.extras ≡ none
      → Ensures (Delivers ctx) (build_document_payload ctx)
  unfolding build_document_payload build_lines
  build_document_payload-Delivers ctx no_extras =
      Ensures-bind (traverse build_line ctx.lines) λ bs ebs.
        Ensures-bind
          (from_calc (
            calculate_document_totals (map (λ b. b.0) bs)
              (or_else ctx.extra_discount_amount zero_money)))
          λ totals et. Ensures-bind (payload_head ctx) λ head _.
            Ensures-bind
              (set_delivery
                (set_object (set_orders head ctx) (lit "payment") (compact_object ctx.payment))
                (compact_object ctx.delivery))
              λ delivered _.
                Ensures-bind
                  (set_totals
                    (set_field (set_present delivered (lit "references") ctx.references)
                      (lit "invoiceLines") (lines_json bs))
                    totals)
                  λ summed es.
                    let s = (set_totals-SumsSent _ totals).holds summed es in
                    Ensures-ok (record {
                      built = bs;
                      each = (build_lines-Ensures ctx.lines).holds bs ebs;
                      computed = refl;
                      totals_computed = from_calc-returned _ totals et;
                      lines = rw no_extras (
                          s.lines
                          ∙ get_field-set_field _ (lit "invoiceLines") (lit "invoiceLines")
                              (lines_json bs));
                      net_amount = rw no_extras s.net_amount;
                      total_amount = rw no_extras s.total_amount;
                      extra_discount = rw no_extras s.extra_discount;
                    })
