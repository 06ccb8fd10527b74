-- ===== src/Receipts/Validator/Built.antt =====
-- `validateReceipt` of packages/eta-core/src/receipts/receipt-validator.ts on the receipts that
-- `buildReceipt` of packages/eta-core/src/receipts/receipt-builder.ts returns.
use einvoice.Prelude.{
  ◌<◌, ◌≡◌, refl, ◌∙◌, ap, true, Bool-cases, inl, inr, some, List, [], ◌∷◌, Text, lit, Unicode, ok,
  traverse, ℤ, size, length, leb, Ensures, Ensures-bind, Ensures-ok,
}
use einvoice.Money.{Numerics, money, double_precision, format_money}
use einvoice.Json.{num, Fields, get_field}
use einvoice.Json.Strings.{js_string}
use einvoice.Json.Objects.{get_field-set_field}
use einvoice.Formats.{Dates, to_eta_decimal_number, format_eta_date_time_issued}
use einvoice.Builder.{from_calc}
use einvoice.Builder.Document.{tax_total}
use einvoice.Builder.Lines.{to_eta_decimal_number-Ensures, from_calc-returned}
use einvoice.Builder.Kept.{Keeps, Keeps-trans, Keeps-set_field, Keeps-set_object}
use einvoice.Receipts.Types.{ReceiptType, normalize_receipt_type, max_receipt_lines}
use einvoice.Receipts.Uuid.{with_uuid, stamp_receipt_uuid}
use einvoice.Receipts.Totals.{
  ReceiptLineComputed, ReceiptDocumentTotals, calculate_receipt_line,
  calculate_receipt_document_totals,
}
use einvoice.Receipts.Builder.{ReceiptBuildInput, compact_party, from_type, from_build, build_item}
use einvoice.Receipts.Builder.Head.{Keeps-set_list, from_build-returned}
use einvoice.Receipts.Builder.Receipt.{
  BuiltReceipt, extra_discount, set_receipt_totals, receipt_currency, exchange_rate_of,
  receipt_header, receipt_payload, build_receipt,
}
use einvoice.Receipts.Validator.Recomputed.{
  amounts_close, total_check_issues, total_checks_issues, total_checks, recomputed_issues, no_lines,
}

-- A text of whole cents that a double holds.
abbrev pub IsCents : Text → Type 0
IsCents t = (a : ℤ) × (t ≡ money a) × (size a < double_precision)

-- The five totals that are compared are of whole cents.
abbrev pub HasCents : ReceiptDocumentTotals → Type 0
HasCents t =
    IsCents t.total_sales
    × IsCents t.net_amount
    × IsCents t.total_amount
    × IsCents t.total_commercial_discount
    × IsCents t.total_items_discount

abbrev sum_keys : List Text
sum_keys =
    lit "totalSales"
    ∷ lit "netAmount"
    ∷ lit "totalAmount"
    ∷ lit "totalCommercialDiscount"
    ∷ lit "totalItemsDiscount"
    ∷ []

module _ ⦃n : Numerics⦄ where
  amounts_close_self : (t : Text) → IsCents t → amounts_close t (some (num (n.number t))) ≡ ok true
  unfolding amounts_close format_money js_string
  amounts_close_self t (a, e, h) = rw e (
      rw (n.parse-number_text a h)
        (rw (n.to_fixed2-cents a) (rw (n.is_close-self _ (n.is_finite-money a h)) refl)))

  total_check-sent :
      (path t : Text) → IsCents t → total_check_issues (path, t, some (num (n.number t))) ≡ ok []
  unfolding total_check_issues
  total_check-sent path t c = rw (amounts_close_self t c) refl

  -- The receipt holds the five totals as numbers.
  pub record TotalsSent (t : ReceiptDocumentTotals) (fs : Fields n.Double) : Type 0 where
    pub sales : get_field fs (lit "totalSales") ≡ some (num (n.number t.total_sales))
    pub net : get_field fs (lit "netAmount") ≡ some (num (n.number t.net_amount))
    pub total : get_field fs (lit "totalAmount") ≡ some (num (n.number t.total_amount))
    pub commercial :
        get_field fs (lit "totalCommercialDiscount")
        ≡ some (num (n.number t.total_commercial_discount))
    pub discounts :
        get_field fs (lit "totalItemsDiscount") ≡ some (num (n.number t.total_items_discount))

  total_checks-TotalsSent :
      (t : ReceiptDocumentTotals) (fs : Fields n.Double)
      → TotalsSent t fs
      → HasCents t
      → total_checks_issues (total_checks t fs) ≡ ok []
  unfolding total_checks_issues
  total_checks-TotalsSent t fs s (c1, c2, c3, c4, c5) =
      rw (s.sales, s.net, s.total, s.commercial, s.discounts)
        (rw (total_check-sent _ _ c1) (
          rw (total_check-sent _ _ c2) (
            rw (total_check-sent _ _ c3)
              (rw (total_check-sent _ _ c4) (rw (total_check-sent _ _ c5) refl)))))

  Keeps-TotalsSent :
      (t : ReceiptDocumentTotals) (a b : Fields n.Double)
      → Keeps sum_keys a b
      → TotalsSent t a
      → TotalsSent t b
  Keeps-TotalsSent t a b k s = record {
    sales = k.kept (lit "totalSales") refl ∙ s.sales;
    net = k.kept (lit "netAmount") refl ∙ s.net;
    total = k.kept (lit "totalAmount") refl ∙ s.total;
    commercial = k.kept (lit "totalCommercialDiscount") refl ∙ s.commercial;
    discounts = k.kept (lit "totalItemsDiscount") refl ∙ s.discounts;
  }

  -- What `set_receipt_totals` sends, with what was there before.
  pub record SumsKept (out : Fields n.Double) (t : ReceiptDocumentTotals) (fs : Fields n.Double)
      : Type 0 where
    pub net : get_field fs (lit "netAmount") ≡ some (num (n.number t.net_amount))
    pub total : get_field fs (lit "totalAmount") ≡ some (num (n.number t.total_amount))
    pub sales : get_field fs (lit "totalSales") ≡ get_field out (lit "totalSales")
    pub commercial :
        get_field fs (lit "totalCommercialDiscount") ≡ get_field out (lit "totalCommercialDiscount")
    pub discounts :
        get_field fs (lit "totalItemsDiscount") ≡ get_field out (lit "totalItemsDiscount")

module _ ⦃u : Unicode⦄ ⦃n : Numerics⦄ where
  set_receipt_totals-SumsKept :
      (out : Fields n.Double) (input : ReceiptBuildInput n.Double) (t : ReceiptDocumentTotals)
      → Ensures (SumsKept out t) (set_receipt_totals out input t)
  unfolding set_receipt_totals
  set_receipt_totals-SumsKept out input t =
      Ensures-bind (traverse extra_discount input.extra_receipt_discount_data) λ extras _.
        Ensures-bind (to_eta_decimal_number t.net_amount) λ net en.
          Ensures-bind (to_eta_decimal_number t.total_amount) λ total et.
            Ensures-bind (traverse tax_total t.tax_totals) λ taxes _.
              let k0 = Keeps-set_list sum_keys out (lit "extraReceiptDiscountData") extras refl in
              let k =
                Keeps-trans
                  (Keeps-set_object sum_keys _ (lit "contractor") (compact_party input.contractor)
                    refl)
                  (Keeps-set_object sum_keys _ (lit "beneficiary") (compact_party input.beneficiary)
                    refl) in
              Ensures-ok (record {
                net =
                    k.kept (lit "netAmount") refl
                    ∙ simp (
                      get_field-set_field,
                      (to_eta_decimal_number-Ensures t.net_amount).holds net en,
                    );
                total =
                    k.kept (lit "totalAmount") refl
                    ∙ simp (
                      get_field-set_field,
                      (to_eta_decimal_number-Ensures t.total_amount).holds total et,
                    );
                sales =
                    k.kept (lit "totalSales") refl
                    ∙ simp (get_field-set_field, k0.kept (lit "totalSales") refl);
                commercial =
                    k.kept (lit "totalCommercialDiscount") refl
                    ∙ simp (get_field-set_field, k0.kept (lit "totalCommercialDiscount") refl);
                discounts =
                    k.kept (lit "totalItemsDiscount") refl
                    ∙ simp (get_field-set_field, k0.kept (lit "totalItemsDiscount") refl);
              })

  -- The totals are those of the input, and the receipt holds them.
  pub record Sends (input : ReceiptBuildInput n.Double) (t : ReceiptDocumentTotals)
      (fs : Fields n.Double) : Type 0 where
    pub lines : List ReceiptLineComputed
    pub computed : traverse calculate_receipt_line input.lines ≡ ok lines
    pub totals : calculate_receipt_document_totals lines input.extra_receipt_discount_data ≡ ok t
    pub sent : TotalsSent t fs

  recomputed_issues-Sends :
      (input : ReceiptBuildInput n.Double) (t : ReceiptDocumentTotals) (fs : Fields n.Double)
      → Sends input t fs
      → HasCents t
      → recomputed_issues fs (some input) ≡ ok []
  unfolding recomputed_issues
  recomputed_issues-Sends input t fs s c = elim (Bool-cases (no_lines input.lines)) [
    | inl e ↦ rw e refl
    | inr e ↦ rw e (rw s.computed (rw s.totals (total_checks-TotalsSent t fs s.sent c)))
  ]

module _ ⦃u : Unicode⦄ ⦃n : Numerics⦄ ⦃d : Dates⦄ where
  receipt_payload-Sends :
      (type : ReceiptType) (input : ReceiptBuildInput n.Double)
      → Ensures (λ built. Sends input (built.1) (built.0)) (receipt_payload type input)
  unfolding receipt_payload get_field
  receipt_payload-Sends type input =
      Ensures-bind (from_calc (traverse calculate_receipt_line input.lines)) λ computed ec.
        Ensures-bind
          (from_calc (calculate_receipt_document_totals computed input.extra_receipt_discount_data))
          λ t et.
            Ensures-bind (exchange_rate_of (receipt_currency input.currency) input.exchange_rate)
              λ rate _. Ensures-bind (format_eta_date_time_issued input.date_time_issued) λ date _.
                Ensures-bind (receipt_header type input rate date) λ header _.
                  Ensures-bind (traverse build_item input.lines) λ item_data _.
                    Ensures-bind (to_eta_decimal_number t.total_sales) λ sales es.
                      Ensures-bind (to_eta_decimal_number t.total_commercial_discount)
                        λ commercial em.
                          Ensures-bind (to_eta_decimal_number t.total_items_discount)
                            λ discounts ed.
                              Ensures-bind (set_receipt_totals _ input t) λ payload ep.
                                let k = (set_receipt_totals-SumsKept _ input t).holds payload ep in
                                Ensures-ok (record {
                                  lines = computed;
                                  computed = from_calc-returned _ computed ec;
                                  totals = from_calc-returned _ t et;
                                  sent = record {
                                    sales =
                                        k.sales
                                        ∙ ap (λ x. some (num x))
                                            ((to_eta_decimal_number-Ensures t.total_sales).holds
                                              sales es);
                                    net = k.net;
                                    total = k.total;
                                    commercial =
                                        k.commercial
                                        ∙ ap (λ x. some (num x))
                                            ((to_eta_decimal_number-Ensures
                                                t.total_commercial_discount).holds
                                              commercial em);
                                    discounts =
                                        k.discounts
                                        ∙ ap (λ x. some (num x))
                                            ((to_eta_decimal_number-Ensures
                                                t.total_items_discount).holds
                                              discounts ed);
                                  };
                                })

  stamped-Sends :
      (input : ReceiptBuildInput n.Double) (t : ReceiptDocumentTotals) (fs : Fields n.Double)
      → Sends input t fs
      → Sends input t (stamp_receipt_uuid fs).receipt
  unfolding stamp_receipt_uuid with_uuid
  stamped-Sends input t fs s = record {
    lines = s.lines;
    computed = s.computed;
    totals = s.totals;
    sent = Keeps-TotalsSent t fs _ (Keeps-set_field sum_keys fs (lit "header") _ refl) s.sent;
  }

  build_receipt-Sends :
      (input : ReceiptBuildInput n.Double)
      → Ensures (λ r. Sends input r.totals r.eta_payload) (build_receipt input)
  unfolding build_receipt
  build_receipt-Sends input =
      Ensures-bind (from_type (normalize_receipt_type input.receipt_type)) λ type _.
        elim (Bool-cases (leb (length input.lines) max_receipt_lines)) [
          | inl e ↦ rw e (
              Ensures-bind (from_build (receipt_payload type input)) λ built eb. Ensures-ok (
                stamped-Sends input (built.1) (built.0) (
                  (receipt_payload-Sends type input).holds built (from_build-returned _ built eb))))
          | inr e ↦ rw e (record { holds = λ r h. cc })
        ]

  -- The totals of a receipt that `buildReceipt` returns pass the comparison of `validateReceipt`
  -- with the totals that it recomputes from the same input: no issue is reported, and nothing is
  -- thrown. The five totals that are compared are whole cents with at most 15 digits.
  pub recomputed_issues-build_receipt :
      (input : ReceiptBuildInput n.Double) (r : BuiltReceipt n.Double)
      → build_receipt input ≡ ok r
      → HasCents r.totals
      → recomputed_issues r.eta_payload (some input) ≡ ok []
  recomputed_issues-build_receipt input r e c =
      recomputed_issues-Sends input r.totals r.eta_payload ((build_receipt-Sends input).holds r e) c
