-- ===== src/Builder/Kept.antt =====
-- The head of the payload that `buildDocumentPayload` of
-- packages/eta-core/src/builders/document.ts makes is kept by all that is set after it.
use einvoice.Prelude.{
  ◌≡◌, refl, ◌∙◌, true, false, Option, none, some, [], ◌∷◌, List, Text, lit, has, traverse, Ensures,
  Ensures-bind, Ensures-ok,
}
use einvoice.Money.{Numerics}
use einvoice.Totals.Document.{DocumentTotals}
use einvoice.Json.{Json, str, arr, obj, num, Fields, get_field, set_field, items}
use einvoice.Json.Objects.{get_field-set_other}
use einvoice.Receiver.{set_text, set_object}
use einvoice.Formats.{Dates, to_eta_decimal_number}
use einvoice.Builder.{set_number, set_given}
use einvoice.Builder.Document.{
  BuildContext, set_present, convert_delivery, set_delivery, set_orders, set_totals, tax_total,
}

abbrev pub head_keys : List Text
head_keys =
    lit "issuer"
    ∷ lit "receiver"
    ∷ lit "documentType"
    ∷ lit "documentTypeVersion"
    ∷ lit "dateTimeIssued"
    ∷ lit "internalID"
    ∷ []

module _ {N : Type 0} where
  -- The fields of these keys are the same.
  pub record Keeps (keys : List Text) (before after : Fields N) : Type 0 where
    pub kept : (j : Text) → has keys j ≡ true → get_field after j ≡ get_field before j

  pub Keeps-refl : (keys : List Text) (fs : Fields N) → Keeps keys fs fs
  Keeps-refl keys fs = record { kept = λ j h. refl }

  pub Keeps-trans :
      {keys : List Text} {a b c : Fields N} → Keeps keys a b → Keeps keys b c → Keeps keys a c
  Keeps-trans p q = record { kept = λ j h. q.kept j h ∙ p.kept j h }

  pub Keeps-set_field :
      (keys : List Text) (fs : Fields N) (k : Text) (v : Json N)
      → has keys k ≡ false
      → Keeps keys fs (set_field fs k v)
  Keeps-set_field keys fs k v e = record { kept = λ j h. get_field-set_other keys fs k j v h e }

  pub Keeps-set_text :
      (keys : List Text) (fs : Fields N) (k s : Text)
      → has keys k ≡ false
      → Keeps keys fs (set_text fs k s)
  Keeps-set_text keys fs k [] e = Keeps-refl keys fs
  Keeps-set_text keys fs k (c ∷ s) e = Keeps-set_field keys fs k (str (c ∷ s)) e

  pub Keeps-set_given :
      (keys : List Text) (fs : Fields N) (k : Text) (o : Option Text)
      → has keys k ≡ false
      → Keeps keys fs (set_given fs k o)
  Keeps-set_given keys fs k none e = Keeps-refl keys fs
  Keeps-set_given keys fs k (some s) e = Keeps-set_text keys fs k s e

  pub Keeps-set_object :
      (keys : List Text) (fs : Fields N) (k : Text) (o : Option (Fields N))
      → has keys k ≡ false
      → Keeps keys fs (set_object fs k o)
  Keeps-set_object keys fs k none e = Keeps-refl keys fs
  Keeps-set_object keys fs k (some a) e = Keeps-set_field keys fs k (obj a) e

  pub Keeps-set_present :
      (keys : List Text) (fs : Fields N) (k : Text) (o : Option (Json N))
      → has keys k ≡ false
      → Keeps keys fs (set_present fs k o)
  Keeps-set_present keys fs k none e = Keeps-refl keys fs
  Keeps-set_present keys fs k (some v) e = Keeps-set_field keys fs k v e

module _ ⦃n : Numerics⦄ where
  pub Keeps-set_orders :
      (fs : Fields n.Double) (ctx : BuildContext n.Double) → Keeps head_keys fs (set_orders fs ctx)
  unfolding set_orders
  Keeps-set_orders fs ctx =
      let p1 =
        Keeps-set_given head_keys fs (lit "purchaseOrderReference") ctx.purchase_order_reference
          refl in
      let p2 = Keeps-trans p1 (
        Keeps-set_given head_keys _ (lit "purchaseOrderDescription") ctx.purchase_order_description
          refl) in
      let p3 =
        Keeps-trans p2 (
          Keeps-set_given head_keys _ (lit "salesOrderReference") ctx.sales_order_reference refl) in
      let p4 = Keeps-trans p3 (
        Keeps-set_given head_keys _ (lit "salesOrderDescription") ctx.sales_order_description
          refl) in
      let p5 = Keeps-trans p4 (
        Keeps-set_given head_keys _ (lit "proformaInvoiceNumber") ctx.proforma_invoice_number
          refl) in
      Keeps-trans p5
        (Keeps-set_given head_keys _ (lit "serviceDeliveryDate") ctx.service_delivery_date refl)

  pub set_delivery-Ensures :
      ⦃d : Dates⦄ (fs : Fields n.Double) (o : Option (Fields n.Double))
      → Ensures (Keeps head_keys fs) (set_delivery fs o)
  unfolding set_delivery
  set_delivery-Ensures fs none = Ensures-ok (Keeps-refl head_keys fs)
  set_delivery-Ensures fs (some o) =
      Ensures-bind (convert_delivery o)
        λ delivery _. Ensures-ok (Keeps-set_field head_keys fs (lit "delivery") (obj delivery) refl)

  pub set_totals-Ensures :
      (fs : Fields n.Double) (t : DocumentTotals) → Ensures (Keeps head_keys fs) (set_totals fs t)
  unfolding set_totals
  set_totals-Ensures fs t = Ensures-bind (to_eta_decimal_number t.total_discount_amount) λ d _.
      Ensures-bind (to_eta_decimal_number t.total_sales_amount) λ s _.
        Ensures-bind (to_eta_decimal_number t.net_amount) λ net _.
          Ensures-bind (traverse tax_total t.tax_totals) λ taxes _.
            Ensures-bind (to_eta_decimal_number t.total_amount) λ total _.
              Ensures-bind (to_eta_decimal_number t.extra_discount_amount) λ extra _.
                Ensures-bind (to_eta_decimal_number t.total_items_discount_amount) λ i _.
                  let k1 = Keeps-set_field head_keys fs (lit "totalDiscountAmount") (num d) refl in
                  let k2 =
                    Keeps-trans k1
                      (Keeps-set_field head_keys _ (lit "totalSalesAmount") (num s) refl) in
                  let k3 =
                    Keeps-trans k2 (Keeps-set_field head_keys _ (lit "netAmount") (num net) refl) in
                  let k4 =
                    Keeps-trans k3
                      (Keeps-set_field head_keys _ (lit "taxTotals") (arr (items taxes)) refl) in
                  let k5 =
                    Keeps-trans k4
                      (Keeps-set_field head_keys _ (lit "totalAmount") (num total) refl) in
                  let k6 =
                    Keeps-trans k5
                      (Keeps-set_field head_keys _ (lit "extraDiscountAmount") (num extra) refl) in
                  Ensures-ok (
                    Keeps-trans k6
                      (Keeps-set_field head_keys _ (lit "totalItemsDiscountAmount") (num i) refl))

  pub set_number-Ensures :
      (keys : List Text) (fs : Fields n.Double) (k : Text) (o : Option Text)
      → has keys k ≡ false
      → Ensures (Keeps keys fs) (set_number fs k o)
  unfolding set_number
  set_number-Ensures keys fs k none e = Ensures-ok (Keeps-refl keys fs)
  set_number-Ensures keys fs k (some []) e = Ensures-ok (Keeps-refl keys fs)
  set_number-Ensures keys fs k (some (c ∷ s)) e =
      Ensures-bind (to_eta_decimal_number (c ∷ s))
        λ x _. Ensures-ok (Keeps-set_field keys fs k (num x) e)
