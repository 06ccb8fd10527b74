-- ===== src/Validation/Accepted.antt =====
-- packages/eta-core/src/local-validator.ts against packages/eta-core/src/builders/document.ts: the
-- check of the totals on the payloads that are built.
use einvoice.Prelude.{
  ◌+◌, ◌≤◌, ◌<◌, ◌≡◌, refl, sym, subst, ◌∙◌, ap, none, some, List, [], ◌∷◌, map, lit, Unicode, ok,
  ℤ, pos, ◌-ℤ◌, size, size-+ℤ, size--ℤ, ok-injective, zero_+ℤ, arith,
}
use einvoice.Money.{Numerics, money, money_zero, zero_money, precision, double_precision, sub-money}
use einvoice.Json.{num, Fields, get_field}
use einvoice.Totals.{or_else}
use einvoice.Totals.Document.{calculate_document_totals}
use einvoice.Totals.DocumentSums.{
  MoneyLine, as_line, sum_of, weights, calculate_document_totals-money,
}
use einvoice.Builder.Document.{BuildContext, BuiltDocument, build_document_payload}
use einvoice.Builder.Payload.{Delivers, build_document_payload-Delivers}
use einvoice.Validation.Recomputed.{
  checked, to_amount-money, beyond_tolerance_self, check_lines-built,
}
use einvoice.Validation.Totals.{
  check_net, check_total, check_sums, check_eta_totals, check_totals_of,
}
use einvoice.Formats.{Dates}

module _ ⦃n : Numerics⦄ where
  check_net_self : (a : ℤ) → check_net (money a) (some (money a)) ≡ ok []
  unfolding check_net
  check_net_self a = rw (beyond_tolerance_self a) refl

  check_total-exact :
      (document : Fields n.Double) (lines extra : ℤ)
      → get_field document (lit "extraDiscountAmount") ≡ some (num (n.number (money extra)))
      → size extra < double_precision
      → size lines + size extra < precision
      → check_total document (money lines) (some (money (lines -ℤ extra))) ≡ ok []
  unfolding check_total
  check_total-exact document lines extra e h q = rw e (
      rw (to_amount-money extra h) (
        rw (sub-money lines extra (omega (arith, size--ℤ lines extra)))
          (rw (beyond_tolerance_self (lines -ℤ extra)) refl)))

  -- A document whose totals are those of its lines, in cents.
  pub record Totalled (document : Fields n.Double) (lines nets extra : ℤ) : Type 0 where
    pub net_amount : get_field document (lit "netAmount") ≡ some (num (n.number (money nets)))
    pub total_amount :
        get_field document (lit "totalAmount") ≡ some (num (n.number (money (lines -ℤ extra))))
    pub extra_discount :
        get_field document (lit "extraDiscountAmount") ≡ some (num (n.number (money extra)))

  check_sums-Totalled :
      (document : Fields n.Double) (lines nets extra : ℤ)
      → Totalled document lines nets extra
      → size lines + size nets + size extra < double_precision
      → check_sums document (checked lines nets) ≡ ok []
  unfolding check_sums
  check_sums-Totalled document lines nets extra t q = rw t.net_amount (
      rw (to_amount-money nets (omega arith)) (
        rw (check_net_self nets) (
          rw t.total_amount (
            rw (to_amount-money (lines -ℤ extra) (omega (arith, size--ℤ lines extra))) (
              rw
                (check_total-exact document lines extra t.extra_discount (omega arith)
                  (omega arith))
                refl)))))

size-sums :
    (ls : List MoneyLine)
    → size (sum_of (λ l. l.total) ls) + size (sum_of (λ l. l.net) ls) ≤ weights ls
size-sums [] = omega arith
size-sums (l ∷ ls) = omega (
  arith,
  size-sums ls,
  size-+ℤ l.total (sum_of (λ m. m.total) ls),
  size-+ℤ l.net (sum_of (λ m. m.net) ls),
)

module _ ⦃u : Unicode⦄ ⦃n : Numerics⦄ where
  Delivers-Totalled :
      (ctx : BuildContext n.Double) (d : BuiltDocument n.Double) (ls : List MoneyLine) (extra : ℤ)
      → Delivers ctx d
      → d.line_computed ≡ map as_line ls
      → or_else ctx.extra_discount_amount zero_money ≡ money extra
      → weights ls + size extra < precision
      → Totalled d.eta_payload (sum_of (λ l. l.total) ls) (sum_of (λ l. l.net) ls) extra
  Delivers-Totalled ctx d ls extra h lines discount q =
      let (m, e, _) = calculate_document_totals-money ls extra q in
      let computed =
        subst (λ t. calculate_document_totals (map as_line ls) t ≡ ok d.totals) discount
          (subst
            (λ x.
              calculate_document_totals x (or_else ctx.extra_discount_amount zero_money)
              ≡ ok d.totals)
            lines h.totals_computed) in
      let same = ok-injective (sym computed ∙ e) in
      record {
        net_amount = h.net_amount ∙ ap (λ t. some (num (n.number t.net_amount))) same;
        total_amount = h.total_amount ∙ ap (λ t. some (num (n.number t.total_amount))) same;
        extra_discount =
            h.extra_discount ∙ ap (λ t. some (num (n.number t.extra_discount_amount))) same;
      }

  Delivers-accepted :
      (ctx : BuildContext n.Double) (d : BuiltDocument n.Double) (ls : List MoneyLine) (extra : ℤ)
      → Delivers ctx d
      → d.line_computed ≡ map as_line ls
      → or_else ctx.extra_discount_amount zero_money ≡ money extra
      → weights ls + size extra < double_precision
      → check_eta_totals d.eta_payload ≡ ok []
  unfolding check_eta_totals
  Delivers-accepted ctx d ls extra h lines discount q =
      let totalled = Delivers-Totalled ctx d ls extra h lines discount (omega arith) in
      let run =
        check_lines-built (pos 0) (pos 0) 0 ls h.built (sym h.computed ∙ lines) h.each (omega arith)
          (omega arith) in
      rw (h.lines, check_totals_of)
        (rw (← money_zero) (
          rw run (
            rw (zero_+ℤ (sum_of (λ l. l.total) ls)) (
              rw (zero_+ℤ (sum_of (λ l. l.net) ls)) (
                check_sums-Totalled d.eta_payload (sum_of (λ l. l.total) ls)
                  (sum_of (λ l. l.net) ls) extra totalled (omega (arith, size-sums ls)))))))

module _ ⦃u : Unicode⦄ ⦃n : Numerics⦄ ⦃dates : Dates⦄ where
  -- A document with no extras that `buildDocumentPayload` builds, whose lines are computed in whole
  -- cents and whose amounts add up to less than 15 digits, passes `checkEtaTotals` with no issue:
  -- every item total, the net amount and the total amount agree with ETA's equations.
  pub check_eta_totals-build_document_payload :
      (ctx : BuildContext n.Double) (d : BuiltDocument n.Double) (ls : List MoneyLine) (extra : ℤ)
      → ctx.extras ≡ none
      → build_document_payload ctx ≡ ok d
      → d.line_computed ≡ map as_line ls
      → or_else ctx.extra_discount_amount zero_money ≡ money extra
      → weights ls + size extra < double_precision
      → check_eta_totals d.eta_payload ≡ ok []
  check_eta_totals-build_document_payload ctx d ls extra no_extras built lines discount q =
      Delivers-accepted ctx d ls extra
        ((build_document_payload-Delivers ctx no_extras).holds d built) lines discount q
