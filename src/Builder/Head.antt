-- ===== src/Builder/Head.antt =====
-- The head of the payload that `buildDocumentPayload` of
-- packages/eta-core/src/builders/document.ts makes.
use einvoice.Prelude.{
  ◌≡◌, refl, sym, subst, ◌∙◌, none, some, map, Text, lit, Unicode, ok, traverse, Ensures,
  Ensures-bind, Ensures-ok,
}
use einvoice.Money.{Numerics, zero_money}
use einvoice.Totals.{or_else}
use einvoice.Totals.Document.{calculate_document_totals}
use einvoice.Json.{str, obj, Fields, get_field, set_field}
use einvoice.Receiver.{set_object, eta_receiver_for_document}
use einvoice.Formats.{Dates, format_eta_date_time_issued}
use einvoice.Builder.{kind_name, kind_to_eta_type, from_calc, build_line, build_lines}
use einvoice.Builder.Document.{
  BuildContext, set_present, compact_object, set_delivery, set_orders, set_totals, assign_given,
  payload_head, build_document_payload,
}
use einvoice.Builder.Payload.{lines_json}
use einvoice.Builder.Kept.{
  head_keys, Keeps, Keeps-trans, Keeps-set_field, Keeps-set_object, Keeps-set_present,
  Keeps-set_orders, set_delivery-Ensures, set_totals-Ensures,
}

module _ ⦃u : Unicode⦄ ⦃n : Numerics⦄ ⦃d : Dates⦄ where
  -- The fields that the context determines.
  pub record IsHead (ctx : BuildContext n.Double) (fs : Fields n.Double) : Type 0 where
    pub issuer : get_field fs (lit "issuer") ≡ some (obj ctx.issuer)
    pub document_type : get_field fs (lit "documentType") ≡ some (str (kind_to_eta_type ctx.kind))
    pub version : get_field fs (lit "documentTypeVersion") ≡ some (str ctx.document_type_version)
    pub internal_id : get_field fs (lit "internalID") ≡ some (str ctx.internal_id)
    pub date : Text
    pub formatted : format_eta_date_time_issued ctx.date_time_issued ≡ ok date
    pub date_time : get_field fs (lit "dateTimeIssued") ≡ some (str date)
    pub receiver_field :
        get_field fs (lit "receiver")
        ≡ some (obj (eta_receiver_for_document (kind_name ctx.kind) (some (obj ctx.receiver))))

  payload_head-IsHead : (ctx : BuildContext n.Double) → Ensures (IsHead ctx) (payload_head ctx)
  unfolding payload_head get_field
  payload_head-IsHead ctx =
      Ensures-bind (format_eta_date_time_issued ctx.date_time_issued) λ date ed.
        Ensures-ok (record {
          issuer = refl;
          document_type = refl;
          version = refl;
          internal_id = refl;
          date = date;
          formatted = ed;
          date_time = refl;
          receiver_field = refl;
        })

  Keeps-IsHead :
      (ctx : BuildContext n.Double) (a b : Fields n.Double)
      → Keeps head_keys a b
      → IsHead ctx a
      → IsHead ctx b
  Keeps-IsHead ctx a b k h = record {
    issuer = k.kept (lit "issuer") refl ∙ h.issuer;
    document_type = k.kept (lit "documentType") refl ∙ h.document_type;
    version = k.kept (lit "documentTypeVersion") refl ∙ h.version;
    internal_id = k.kept (lit "internalID") refl ∙ h.internal_id;
    date = h.date;
    formatted = h.formatted;
    date_time = k.kept (lit "dateTimeIssued") refl ∙ h.date_time;
    receiver_field = k.kept (lit "receiver") refl ∙ h.receiver_field;
  }

  pub build_document_payload-IsHead :
      (ctx : BuildContext n.Double)
      → ctx.extras ≡ none
      → Ensures (λ built. IsHead ctx built.eta_payload) (build_document_payload ctx)
  unfolding build_document_payload build_lines
  build_document_payload-IsHead ctx no_extras = Ensures-bind (traverse build_line ctx.lines) λ bs _.
      Ensures-bind
        (from_calc (
          calculate_document_totals (map (λ b. b.0) bs)
            (or_else ctx.extra_discount_amount zero_money)))
        λ totals _. Ensures-bind (payload_head ctx) λ head eh.
          let ordered = set_orders head ctx in
          let paid = set_object ordered (lit "payment") (compact_object ctx.payment) in
          Ensures-bind (set_delivery paid (compact_object ctx.delivery)) λ delivered ed.
            let referring = set_present delivered (lit "references") ctx.references in
            let with_lines = set_field referring (lit "invoiceLines") (lines_json bs) in
            Ensures-bind (set_totals with_lines totals) λ summed es.
              let k1 = Keeps-trans (Keeps-set_orders head ctx) (
                Keeps-set_object head_keys ordered (lit "payment") (compact_object ctx.payment)
                  refl) in
              let k2 =
                Keeps-trans k1
                  ((set_delivery-Ensures paid (compact_object ctx.delivery)).holds delivered ed) in
              let k3 =
                Keeps-trans k2
                  (Keeps-set_present head_keys delivered (lit "references") ctx.references refl) in
              let k4 =
                Keeps-trans k3
                  (Keeps-set_field head_keys referring (lit "invoiceLines") (lines_json bs) refl) in
              let k5 = Keeps-trans k4 ((set_totals-Ensures with_lines totals).holds summed es) in
              Ensures-ok (
                subst (λ o. IsHead ctx (assign_given summed o)) (sym no_extras)
                  (Keeps-IsHead ctx head summed k5 ((payload_head-IsHead ctx).holds head eh)))
